-- ===== src/Lib.antt =====
-- ServeProof collects tips and shifts of a venue, splits the tip pool, and pays the shares. Ten parts
-- carry that logic, and are modelled here:
--
-- - Allocation: the engine `computeAllocationBatch` of packages/shared/src/allocation.ts. Types are its
--   inputs and result, Maps its use of `Map`, Pool and Scores its two loops, Shares the largest-remainder
--   split and the whole. Totals, Keys, Cents, Floors, Exact and Balanced are about it.
-- - Shared: packages/shared/src/base58.ts (Base58, Digits), money.ts (BaseUnits, Usd, UsdTrip) and
--   solana-transaction.ts (Blockhash), and the two sides of an address (Emails).
-- - Staffing: `StaffingService` of apps/api/src/staffing/staffing.service.ts. Types and Queries are its
--   tables and reads, Shifts, Assignments and Approval its methods, Calls a history of calls; Capacity,
--   Places, Headcount, Outcomes and Approved are about them.
-- - Settlement: `PayoutsService` of apps/api/src/payouts/payouts.service.ts (Create, Legacy, Send) and
--   `SolanaSettlementService` of apps/worker/src/solana-settlement.service.ts (Worker, Reconcile), which
--   share the tables of Types and the writes of Queries. Finality, FinalApi, FinalWorker, FinalJob,
--   FinalRound, Safety, Overlaps, Live, Acts and Machine are about them.
-- - Batches: `AllocationsService` of apps/api/src/allocations/allocations.service.ts (Plan, Calculate,
--   Review), which calls the engine and makes the batches that Settlement pays, and `createVersion` of
--   apps/api/src/policies/policies.service.ts (Calculate). Closed, Stored and Agreed are about them.
-- - Income: `splitProportionally` and `computeGrade` of packages/db/src/income-projector.ts (Split), which
--   spread an allocation over the shifts of its worker and grade the evidence; Whole is about the split.
-- - Evidence: `splitCsvLine` and `normalizeCsv` of apps/api/src/evidence/csv-normalizer.ts (Csv, Normalize),
--   the schema of packages/shared/src/csv.ts (Rows) and `importCsv` of
--   apps/api/src/evidence/evidence.service.ts (Import, Upload), which writes the evidence that Batches
--   calculates from and starts the calculations. Fields, Amounts, Lines, Keys and Again are about them.
-- - Mappings: `MappingsService` of apps/api/src/mappings/mappings.service.ts (Connect), which connects
--   workers to the allocations of Batches. Tables and Kept are about it.
-- - Disclosure: `DisclosureService` of apps/api/src/disclosure/disclosure.service.ts: Types and Snapshot
--   what a report shows, Grants the grants and reports, Access their status, Otp the access codes, Verify
--   the public verification. Totals, Guesses, Bound and Revoked are about them.
-- - Auth: the one-time codes (Otp) and the refresh tokens (Tokens) of apps/api/src/auth/auth.service.ts.
--   Guesses and Bound are about the codes, Once about the tokens.
--
-- Prelude holds what they share: tables as lists of rows with the queries of the Prisma client
-- (Prelude.Tables, Prelude.Filters, Prelude.Upserts), outcomes of service methods (Prelude.Http), stable sorting
-- (Prelude.Sort) and texts as lists of code units (Prelude.Texts). Examples runs the other modules at concrete inputs.
--
-- A service method is a function from the store to a store or an exception; a method that throws after
-- a write answers both (`Outcome`). Of the payments, the methods that read, wait for the chain and then
-- write (buildTransaction, submitSigned, createUsdcPayout, the indexer) are split at that point: the second
-- part takes what was read and any store, so that what other calls did in between is covered. A confirmation
-- job, a round of the reconciliation, the other methods and a verification of a one-time code are one step
-- each. Cents, ids and instants are natural numbers without a bound, where the source's doubles are exact
-- only below 2 ^ 53; ids are counted up.
--
-- Parameters: Platform is `localeCompare` and the division of doubles; what the engine relies on is that
-- a rounded quotient passes no whole number while dividend and divisor add up to less than 2 ^ 53
-- (IsExact). Weights of roles are whole numbers of a fixed unit. Runtime, Library, Chain and Hashes are
-- the time zone database, @solana/web3.js and the Anchor program, the answers of the RPC node, and SHA-256.
-- Redis is the commands of ioredis with their documented behaviour as laws (Redis.Counted is about a code
-- and the number of its tries), and Clock what zod, `Date` and the time zone database answer, the exception
-- for an unknown time zone included. Random codes and tokens are arguments. The fuel of the carry in Base58
-- is two rounds, which are enough since a carry is below 256; that of a number's digits is one more than the
-- number.
--
-- Not modelled: the web application, controllers, the access rules, workers, payroll, organizations and
-- the rest of the income projection of the API, the mails, the drawing of a report, the Square provider and
-- its queues, the client of the Solana program and the program, an unreachable Redis, and the messages of exceptions. Reads that only select columns for a response are
-- left out.
pub mod Prelude
pub mod Platform
pub mod Redis
pub mod Allocation
pub mod Shared
pub mod Staffing
pub mod Settlement
pub mod Batches
pub mod Mappings
pub mod Evidence
pub mod Disclosure
pub mod Auth
pub mod Income
pub mod Examples
