-- ===== src/Worker.antt =====
-- go-api/internal/worker: the goroutines of cmd/worker. Spans and log lines are left out; every
-- statement, external call and metric is in.
pub mod Clients
pub mod Executor
pub mod Processor
pub mod Recovery
pub mod Reconciler
pub mod Publisher
pub mod Safety
pub mod Service
pub mod Waiting
pub mod Submission
pub mod Lowest
pub mod Outcome
pub mod Slippage
pub mod Publishing
pub mod Delivery
pub mod Started
pub mod Cleared
pub mod Checked
pub mod Fresh
pub mod Sends
pub mod Consumer
pub mod Consumed
pub mod Committed
