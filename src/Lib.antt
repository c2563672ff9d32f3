-- ===== src/Lib.antt =====
-- The financial core of pms-backend, modelled and verified.
--
-- The program is a banking back end: a NestJS API and workers over PostgreSQL and RabbitMQ. Its
-- core computes with exact amounts: `Money` (src/shared-kernel/money.ts) parses decimal texts into
-- whole minor units, the profit calculation splits an amount among participants by the largest
-- remainder method (src/modules/profit-calculation/domain/proportional-allocation.ts), and the
-- engine classifies losses (libs/engine/src/loss-classification.ts) and shares profits by the kind of
-- contract: Moudaraba, Musharaka, Wakala and the waterfall of a pool.
-- Around it stand the journals that post a calculation, the monthly closing as a sequence of
-- nineteen steps, the movements of the reserves, and the policy that allows each operation.
--
-- The modules:
--   Base      shared names, Boolean tests, lists over the native numbers, integers
--   Fault     the errors that the source throws, and the result monad
--   Number    JavaScript numbers where the source tests that they are integers
--   Text      JavaScript strings as lists of code units
--   Decimal   the regular expressions for decimal texts, their scaling and their print
--   Money     class Money
--   Allocation  allocateProportionally
--   Loss      classifyLossAbsorption
--   Engine    the profit engines in libs/engine/src: Musharaka, Wakala, Moudaraba, Distributable,
--             Weighted, Target (profit-target-solver.ts); decimal.js is a record of operations
--   Inbox     src/infrastructure/messaging/idempotent-consumer.ts over its table
--             (src/infrastructure/persistence/postgres-inbox.repository.ts)
--   Outbox    src/infrastructure/persistence/postgres-outbox.repository.ts and the relay
--             (src/infrastructure/messaging/outbox-relay.ts)
--   Publisher  src/infrastructure/messaging/rabbitmq-event-publisher.adapter.ts
--   Journal   src/modules/accounting/domain/balanced-journal.ts
--   Closing   src/modules/closing-workflow/domain, and in Repository the transaction around an
--             advance (src/infrastructure/persistence/postgres-closing-workflow.repository.ts), in
--             Execute the checks of a request (closing-workflow/application)
--   Reserve   src/modules/reserves/domain/reserve-movement.ts
--   Accounting  src/modules/accounting/domain/accounting-lifecycle.ts
--   Batch     src/modules/cbs-ingestion/domain/batch-state.ts
--   ExceptionCase  src/modules/exceptions/domain/exception-case.ts
--   Sharia    src/modules/compliance/domain/sharia-review.ts
--   Risk      src/modules/risk-alm/domain/dcr.ts and stress-scenario.ts, its second scenario in Rerun
--   Reconciliation  src/modules/accounting/domain/reconciliation.ts
--   Account   src/modules/investment-accounts/domain/investment-account.ts
--   Access    src/modules/identity-access/domain/authorization.ts
--   Audit     src/modules/audit/domain/audit-chain.ts
--
-- A bigint is an integer with no bound, as in JavaScript. An amount that the source has shown to be
-- non-negative is a natural number. A thrown error is a value of `Fault`, named for its message. A
-- loop is a recursion on the list or on the number of rounds; `to_string` has one more unit of fuel
-- than the number, which Digits shows to be enough by reading the print back.
--
-- A table is a list of rows, and a transaction is a function on the tables: the locks of the source
-- make the transactions of one closing run one after another, and a throw rolls back. `Date.parse`,
-- `toISOString`, SHA-256, the quotes of `JSON.stringify` and the comparison of names by locale are
-- parameters.
--
-- The engines take the operations of decimal.js as parameters. Where a sum of decimals matters, laws
-- of theirs are a hypothesis (Engine/Exact): a text is read exactly, and a sum or a difference of whole
-- numbers of a unit is exact below the precision, to which decimal.js rounds. The theorems bound their
-- inputs so that every step stays below it. The library of millionths on which the engines run here
-- (Engine/Fixed) has the laws at any precision.
--
-- The statements of a worker on the inbox and the outbox are steps of their own, and the workers
-- interleave at will: before each round of a relay's batch other workers may have run any statements.
-- A claim of the outbox is one step, so no other claim is under way whose rows it would skip. Times
-- are numbers, arguments of the steps. A statement of SQL does not fail.
--
-- Not modelled: pooling, revenue and reporting, which compute with decimal.js outside the engine
-- library, the remaining repositories, and the adapters, controllers and workers, which only pass
-- values on. A number that the source does not test to be an integer is an integer
-- here: delegation levels, and the scale of a reconciliation, which is a natural number.
pub mod Base
pub mod Fault
pub mod Number
pub mod Text
pub mod Decimal
pub mod Money
pub mod Allocation
pub mod Loss
pub mod Engine
pub mod Journal
pub mod Closing
pub mod Reserve
pub mod Access
pub mod Risk
pub mod Reconciliation
pub mod Account
pub mod Accounting
pub mod Batch
pub mod ExceptionCase
pub mod Sharia
pub mod Inbox
pub mod Outbox
pub mod Publisher
pub mod Audit
