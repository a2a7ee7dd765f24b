-- ===== src/Lib.antt =====
-- The payment core of ChainRoute's Go services: what the store promises, what the worker does with
-- it, and how the two behave under crashes, redelivery, faults and other actors.
--
-- A payment is saved ROUTED in one transaction with its hops, its quotes and an outbox event. The
-- publisher hands the event to Kafka; the processor claims the payment (PROCESSING) and either ends it
-- by the simulated execution, or runs the executor: fresh quote, checks, a nonce with an execution row,
-- signature, persisted bytes, broadcast, SUBMITTED. The reconciler repairs what crashes leave and ends
-- SUBMITTED payments by the receipt and the provider's answer; the recovery ends simulated payments
-- that are stuck.
--
-- Files, with the code they are about (paths from the repository's root):
--   Prelude      numbers, tests, lists, signed integers, chains of checks: no code of the repository
--   Payment      go-api/internal/payment/payment.go, go-api/internal/events/routed_payment.go;
--                Payment/Cursor go-api/internal/payment/cursor.go with the base64 that it calls
--   Db           go-api/migrations: a record of tables; Db/Table the reading of SELECT and UPDATE
--   World        the database, the calls that left the process and the metrics; the environment; the
--                monad of a Go function that returns an error. World/Rules relates before and
--                after, World/Answers says what an action that ends well has answered
--   Store        go-api/internal/postgres: Payments, Create and Outbox for store.go, Executions for
--                execution_store.go, Quotes for quote_store.go (its MarkProcessingFailed in Payments),
--                Listing for ListPayments, Dashboard for the aggregations
--   Store/Listing    Order, Cut, Pages and Complete hold the proof on page behind page; Db/Table/Sorted
--                what it needs of ORDER BY
--   Store/Evolution  what every statement keeps; Store/Once, Store/Nonces and Store/Create/Retry what
--                the guards give; Store/Create/PutIfAbsent the creation of a payment as an
--                operation on a map
--   Money        go-api/internal/money/convert.go; Money/Digits and Money/RoundTrip its laws
--   Execution    go-api/internal/execution/execution.go
--   Handler      go-api/internal/handler: Routing for the tables of routes.go and for
--                go-api/internal/bridge/quote/registry.go; Routes for PostRoutes; Request, Quotes and
--                Create for payments.go, from the checks over the quotes to the response; Response for
--                what is written; Dashboard for dashboard.go; Cors for cors.go. The others hold the
--                proofs (Request/Amount, Request/Valid, Winner, Retry, Stopped, Stored)
--   Bridge       go-api/internal/bridge: Quote for the interfaces of providers, signers and checkers;
--                Relay and Across for the quotes of the two providers, Relay/Execute and
--                Across/Execute for their transactions and statuses, Http for their clients, and
--                Relay/Sound and Across/Sound for the proofs
--   Worker       go-api/internal/worker: Executor (with Checks and Broadcast), Processor, Recovery,
--                Reconciler and Publisher for the files of these names; Clients for the chain's node,
--                go-ethereum's codec and the label of go-api/internal/observability/metrics.go;
--                Consumer for the loop of go-api/cmd/worker/main.go; the others hold the proofs
--                (Safety, Service, Sends, Fresh, Submission, Checked, Started, Cleared, Slippage,
--                Publishing, Delivery, Outcome, Waiting, Lowest, Consumed, Committed)
--   Tests        a small database, chain and provider, runs of the definitions, and the theorems at
--                these inputs
--
-- Reading the model:
-- - A Go function is a function of the environment and the world, with the source's name in snake
--   case. Each SQL statement or transaction is one step: first other actors commit what they like
--   (`others`), then the statement is answered, or rejected, or committed with its answer lost
--   (`Fault`). Each step and each call outside takes the next tick, and the environment answers by
--   tick, so that a theorem over every environment is one over every such run.
-- - `Evolves` relates two states of the database: statuses move forward only, a terminal payment is not
--   touched again, identities, amounts and nonces stay, and a wallet's next nonce never falls. `Fair`
--   says that the other actors keep it; `Quiet` that they do nothing.
-- - Parameters stand for code outside of the repository: the node, go-ethereum's signature, codec,
--   addresses and ABI, the providers' services behind HTTP, the routing service, Kafka, JSON texts,
--   IEEE 754, the case tables of Unicode, the texts of times, the order in which a map is visited,
--   and what Postgres does with NUMERIC, JSONB, AVG and date_trunc. A theorem that assumes anything of
--   them says so.
-- - Numbers: times are nanoseconds and floats bit patterns, both only carried or compared; nonces,
--   chain ids and gas are natural numbers (the code's int64 and uint64 stay in range); big.Int is ℤ.
-- - Fuel: `digits` has one more than the number, which has no more digits than that; `pad_left` one
--   more than the number of decimals, which is as many rounds as the loop can take; the consume loop
--   has any number of rounds, since it ends where the process does; a caller asks for pages more
--   often than there are rows, which is enough since each page but the last has a row.
--
-- Not modelled: the wiring of the commands and the reading of environment variables; tracing,
-- logging and the durations in metrics; the deadlines of contexts, which show as failed calls;
-- generated code, the C++ routing service and the frontend.
pub mod Prelude
pub mod Payment
pub mod Db
pub mod World
pub mod Store
pub mod Money
pub mod Execution
pub mod Handler
pub mod Bridge
pub mod Worker
pub mod Tests
