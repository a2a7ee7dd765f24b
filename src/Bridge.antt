-- ===== src/Bridge.antt =====
-- go-api/internal/bridge: the vocabulary that every bridge provider shares.
pub mod Quote
pub mod Http
pub mod Relay
pub mod Across
