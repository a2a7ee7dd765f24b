-- ===== src/Handler.antt =====
-- go-api/internal/handler: the HTTP handlers of the server. The children are the routing vocabulary
-- with the routes handler, the responses, and one module for each payment endpoint.
pub mod Routing
pub mod Response
pub mod Routes
pub mod Request
pub mod Quotes
pub mod Create
pub mod Dashboard
pub mod Cors
pub mod Winner
pub mod Retry
pub mod Stored
pub mod Stopped
