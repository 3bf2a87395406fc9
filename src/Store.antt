-- ===== src/Store.antt =====
-- The database of prisma/schema.prisma as the code of lib/ sees it: its tables, the errors, and an
-- interactive transaction as a state monad that fails.
mod Schema
mod Monad
pub use Schema.*
pub use Monad.*
