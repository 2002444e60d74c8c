-- ===== src/Server.antt =====
-- internal/server: what a request passes on its way to the handlers of the SDK.
pub mod Params
pub mod Body
pub mod Pipeline
pub mod ErrorBoundary
pub mod Card
pub mod Assembly
