-- ===== src/Auth.antt =====
-- internal/auth/auth.go: bearer authentication around the HTTP handler, and the interceptor that
-- binds a call to its verified tenant.
pub mod Bearer
pub mod Scope
pub mod Middleware
pub mod Oidc
pub mod Interceptor
