-- ===== src/Server/Pipeline.antt =====
-- internal/server/server.go: the protected handler of `New` with authentication: the middleware
-- around the limit around the normalization.
pub mod Reached
use a2a_red_panda_server_con.Prelude.{Text, ℕ}
use a2a_red_panda_server_con.Http.{Request, Handling, forward, next_handler}
use a2a_red_panda_server_con.Auth.Scope.{Authenticator}
use a2a_red_panda_server_con.Auth.Middleware.{middleware}
use a2a_red_panda_server_con.Server.Body.{limit_request_body}
use a2a_red_panda_server_con.Server.Params.{normalize_service_parameters}

-- What the REST handler of the SDK is given, or the answer in its place.
unfoldable pub protected_handler :
    Authenticator → (max_bytes : ℕ) → (version_name extensions_name : Text) → Request → Handling
protected_handler a max_bytes version_name extensions_name req =
    next_handler (middleware a req) λ authenticated.
      next_handler (limit_request_body max_bytes authenticated)
        λ limited. forward (normalize_service_parameters version_name extensions_name limited)
