-- ===== src/Store.antt =====
-- go-api/internal/postgres: each method of *Store is one statement, or one transaction, of `World`.
pub mod Payments
pub mod Executions
pub mod Quotes
pub mod Create
pub mod Outbox
pub mod Evolution
pub mod Once
pub mod Nonces
pub mod Listing
pub mod Dashboard
