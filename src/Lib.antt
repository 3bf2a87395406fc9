-- ===== src/Lib.antt =====
-- The money core of GHOST PROTOCOL: prepaid credits, the paid gate, deposit sync, fulfillment tickets
-- and their settlement, as lib/db.ts and lib/merchant-settlement*.ts run them over the tables of
-- prisma/schema.prisma; and GhostWire, its escrowed jobs, as lib/ghostwire-store.ts and
-- lib/ghostwire-operator.ts keep them. The limits on the rate of requests are modelled too.
--
-- A wallet buys credits with on-chain deposits (syncDeposits) and spends them in two ways. The gate
-- debits a request at once (consumeUserCreditsForGate). A fulfillment ticket first holds its cost
-- (createFulfillmentHold); the merchant's delivery proof captures the hold
-- (captureFulfillmentHold), or it expires and the credits return (expireFulfillmentHolds, and the
-- sweep that a new ticket begins with). A gate debit and a capture book an earning for the
-- merchant, split into fee and net wei by calculateSettlementAmounts; earnings are grouped into
-- rollups, submitted to the vault, and reconciled with what the chain says
-- (reconcileMerchantSettlementRows). Each operation writes the credit ledger, and the nonces of
-- signed requests are spent once.
--
-- A GhostWire job begins as a quote (createWireQuote), which prepareWireJobFromQuote consumes. The
-- client creates and funds it on chain and reports the transactions
-- (recordWireJobExecutionArtifacts). The operator then follows the contract: it waits for the fund
-- transaction's confirmations, reads the job's status and its last event from the chain
-- (processGhostWireWorkflowJob), and records each step with a transition and a webhook, which it sends
-- and retries (deliverGhostWireWebhookEvent). At the end the principal is shared out between provider
-- and protocol (deriveTerminalSettlement).
--
-- Files:
--   Prelude       lists, tables as lists of rows, text as UTF-16 code units with JavaScript's trim and
--                 toLowerCase on ASCII, signed numbers, sorting; the names of the libraries.
--   Env           what the code takes from viem and from environment variables.
--   Store         the tables (Schema) and transactions (Monad): a body that throws is rolled back.
--   Settlement    Amounts: lib/merchant-settlement.ts. Rollup: lib/merchant-settlement-rollup.ts, with
--                 buildMerchantSettlementRollupCandidates. Reconcile: the verdicts and the loops of
--                 lib/merchant-settlement-reconcile.ts; Reconcile/Write: its transaction.
--                 Summary: getMerchantSettlementSummary of lib/db.ts.
--   Credits       lib/db.ts: toPrismaInt and its kin, writeCreditLedger, persistAccessNonce,
--                 createMerchantEarning. Balances: updateUserCredits, addUserCredits,
--                 consumeUserCredits. Gate: consumeUserCreditsForGate. Sync: syncDeposits. Frame:
--                 rules for the bookkeeping writes.
--   Holds         lib/db.ts: Create is createFulfillmentHold, Capture is captureFulfillmentHold, Expire
--                 is the expiry sweep; Open and Settle are the writes of the first two. Ids: the
--                 primary key of holds. Solvency: the invariant of balances and holds, by operation.
--   History       calls on credits and holds in any order and overlap.
--   RateLimit     lib/fulfillment-rate-limit.ts, lib/x402-rate-limit.ts, lib/ghostwire-rate-limit.ts and
--                 lib/agent-gateway-rate-limit.ts: the buckets that the four share; Routes and X402 are what
--                 each makes of a request.
--   Wire          GhostWire. Schema: its tables. Config: lib/ghostwire-config.ts. Terms, Tables, Quotes,
--                 Prepare, Reconcile, Artifacts and Review: lib/ghostwire-store.ts, in that order what
--                 is computed from a job, its queries, createWireQuote, prepareWireJobFromQuote, the
--                 three reconcile functions, the recorded transactions, and manual review. Scan: the
--                 search of the chain's logs, and Operator: one pass over one job, of
--                 lib/ghostwire-operator.ts. Outbox: webhooks, of both files. Touches: which rows an
--                 operation changes. Lifecycle: the contract's life of a job as a relation. History:
--                 every operation of the store, in any order and overlap.
--   Examples      runs on concrete data.
--
-- Text is modelled as code units, so the code's string tests compute. Amounts of wei are unbounded,
-- as bigint is; credits stay within Int columns by the code's own checks and the column's bound.
-- Loops run over lists of rows, but for the scan of the logs, which is on fuel: a round for each 9,001
-- blocks of the chain and one more, which is proved enough. A body that locks the rows it reads is one
-- step; one that reads without a lock (consumeUserCredits, consumeUserCreditsForGate, syncDeposits,
-- the reconciler, recordWireJobExecutionArtifacts) takes as an argument what other transactions commit
-- between its read and its write. The expiry sweep lists without a lock and expires each hold in a
-- transaction of its own, so it takes what others commit before each of these. History instantiates
-- these arguments, for lib/db.ts, with any lists of calls; Wire/History does so for
-- prepareWireJobFromQuote, failWireJobArtifactValidation and recordWireJobExecutionArtifacts. Five
-- transactions of lib/ghostwire-store.ts read their row without a lock and are one step here: that of
-- prepareWireJobFromQuote, where the unique quote of a job refuses a second one,
-- recordWireJobTerminalArtifacts, and the three reconcile functions, which write fixed states. The five
-- queries of getMerchantSettlementSummary read one state. The vault and the receipts are
-- functions that the reconciler takes; what the chain tells the Wire operator is an argument of each
-- pass, and the life of a job in contracts/AgenticCommerce.sol is a hypothesis of the theorems that
-- need it.
--
-- Not modelled: the creation of rollups and the allocator that submits them; metadata columns, log
-- lines, the gate's access events and the historical cursor (raw SQL over other tables); of GhostWire,
-- the queries that only read, the requests that a wallet is asked to sign, the signing of webhooks, the
-- normalization of a request's JSON (a parameter), the recovery of unreported transactions, the tick
-- over all jobs, the execution policy and the route handlers; the agent gateway, trust artifacts,
-- scores, snapshots, pages, SDKs and scripts; and the contracts, of which
-- AgenticCommerce.sol is a pinned copy of another project's.
pub mod Prelude
pub mod Env
pub mod Store
pub mod Settlement
pub mod Credits
pub mod Holds
pub mod RateLimit
pub mod Wire
pub mod History
pub mod Examples
