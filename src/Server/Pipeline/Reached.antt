-- ===== src/Server/Pipeline/Reached.antt =====
-- Which requests reach the REST handler, and in what shape.
use a2a_red_panda_server_con.Prelude.{Text, ℕ, ◌<◌, ◌≡◌, ◌∙◌, ◌↔◌, refl, sym, ap}
use a2a_red_panda_server_con.Auth.Middleware.{middleware, strip_credentials}
use a2a_red_panda_server_con.Auth.Middleware.Admission.{IsAuthorized, middleware-eq-forward}
use a2a_red_panda_server_con.Auth.Scope.{Authenticator}
use a2a_red_panda_server_con.Http.{Request, Handling, forward, reply, next_handler}
use a2a_red_panda_server_con.Identity.{Identity}
use a2a_red_panda_server_con.Server.Body.{max_int64, limit_request_body}
use a2a_red_panda_server_con.Server.Body.Bounded.{IsWithin, buffered, limit_request_body-eq-forward}
use a2a_red_panda_server_con.Server.Params.{normalize_service_parameters}
use a2a_red_panda_server_con.Server.Pipeline.{protected_handler}

next_handler-eq-forward :
    (h : Handling) (next : Request → Handling) (r : Request)
    → (next_handler h next ≡ forward r) ↔ ((m : Request) × (h ≡ forward m) × (next m ≡ forward r))
next_handler-eq-forward (forward m) next r =
    (λ e. (m, refl, e), λ (n, e, k). let same : m ≡ n = cc e in rw same k)
next_handler-eq-forward (reply x) next r = (λ e. absurd (cc e), λ (n, e, k). absurd (cc e))

-- With authentication, and a limit below the largest `int64`, a request reaches the REST handler
-- exactly when it is authorized and its body within the limit. What the handler is given is the
-- request without its credentials, with the verified identity, its body buffered and its service
-- parameters normalized.
pub protected_handler-eq-forward :
    (a : Authenticator) (max_bytes : ℕ) (version_name extensions_name : Text) (req req' : Request)
    → max_bytes < max_int64
    → (protected_handler a max_bytes version_name extensions_name req ≡ forward req') ↔ (
        (identity : Identity) × IsAuthorized a req identity
        × IsWithin max_bytes req.body req.content_length
        × (req'
            ≡ normalize_service_parameters version_name extensions_name
                (buffered req.body (strip_credentials identity req))))
unfolding protected_handler strip_credentials
protected_handler-eq-forward a max vn en req req' small = (
  λ h.
      let (m, admitted, h') = (next_handler-eq-forward (middleware a req) _ req').0 h in
      let (n, limited, h'') = (next_handler-eq-forward (limit_request_body max m) _ req').0 h' in
      let (identity, authorized, stripped) = (middleware-eq-forward a req m).0 admitted in
      let (within, whole) =
        (limit_request_body-eq-forward max (strip_credentials identity req) n small).0
          (rw stripped at limited) in
      let given : normalize_service_parameters vn en n ≡ req' = cc h'' in
      (identity, authorized, within, sym given ∙ ap (normalize_service_parameters vn en) whole),
  λ (identity, authorized, within, shape). (next_handler-eq-forward (middleware a req) _ req').1 (
    strip_credentials identity req,
    (middleware-eq-forward a req (strip_credentials identity req)).1 (identity, authorized, refl),
    (next_handler-eq-forward (limit_request_body max (strip_credentials identity req)) _ req').1 (
      buffered req.body (strip_credentials identity req),
      (limit_request_body-eq-forward max (strip_credentials identity req) _ small).1 (within, refl),
      ap forward (sym shape),
    ),
  ),
)
