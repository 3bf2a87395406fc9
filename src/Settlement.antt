-- ===== src/Settlement.antt =====
-- Merchant settlement: the amounts and ids of lib/merchant-settlement.ts, the rollups of
-- lib/merchant-settlement-rollup.ts, reconciliation by lib/merchant-settlement-reconcile.ts, and the
-- summary of lib/db.ts.
pub mod Amounts
pub mod Rollup
pub mod Reconcile
pub mod Summary
