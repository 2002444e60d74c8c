-- ===== src/Auth/Middleware/Admission.antt =====
-- Which requests reach the protected handler, and in what shape.
use a2a_red_panda_server_con.Prelude.{
  Text, ◌≡◌, ◌≢◌, refl, ◌↔◌, Bool, true, some, List, [], ◌∷◌, str, length, arith, All, ◌||◌, Among,
  Option-cases, inl, inr, ◌==◌, text_eq, text_eq_iff, contains_iff, if◌then◌else◌,
}
use a2a_red_panda_server_con.Identity.{Identity}
use a2a_red_panda_server_con.Http.{Request, forward, canonical_key, header_values}
use a2a_red_panda_server_con.Http.Headers.{values-del}
use a2a_red_panda_server_con.Auth.Bearer.{bearer_token}
use a2a_red_panda_server_con.Auth.Scope.{Authenticator}
use a2a_red_panda_server_con.Auth.Middleware.{has_scopes, strip_credentials, admit, middleware}

-- The token of the request verifies to an identity of the configured issuer, with a subject, a
-- tenant and every required scope.
pub record IsAuthorized (a : Authenticator) (req : Request) (identity : Identity) : Type 0 where
  pub token : Text
  pub presented : bearer_token (header_values (str "Authorization") req.header) ≡ some token
  pub verified : a.verifier token ≡ some identity
  pub issuer : identity.issuer ≡ a.issuer
  pub subject : identity.subject ≢ []
  pub tenant : identity.tenant ≢ []
  pub scopes : All (λ s. Among s identity.scopes) a.required_scopes

has_scopes-All :
    (granted required : List Text)
    → (has_scopes granted required ≡ true) ↔ All (λ s. Among s granted) required
unfolding has_scopes
has_scopes-All granted [] = (λ h. tt, λ h. refl)
has_scopes-All granted (s ∷ rest) =
    ground (arith, has_scopes-All granted rest, contains_iff granted s)

pub empty_iff : (s : Text) → ((length s == 0) ≡ true) ↔ (s ≡ [])
empty_iff [] = ground arith
empty_iff (c ∷ s) = ground arith

-- What the tests after the verification let through.
abbrev IsAdmitted : Authenticator → Identity → Type 0
IsAdmitted a identity =
    (identity.issuer ≡ a.issuer)
    × (identity.subject ≢ [])
    × (identity.tenant ≢ [])
    × All (λ s. Among s identity.scopes) a.required_scopes

admit-eq-forward :
    (a : Authenticator) (identity : Identity) (req req' : Request)
    → (admit a identity req ≡ forward req')
      ↔ (IsAdmitted a identity × (req' ≡ strip_credentials identity req))
unfolding admit
admit-eq-forward a identity req req' = ground (
  arith,
  text_eq_iff identity.issuer a.issuer,
  empty_iff identity.subject,
  empty_iff identity.tenant,
  has_scopes-All identity.scopes a.required_scopes,
)

forward-IsAuthorized :
    (a : Authenticator) (req req' : Request)
    → middleware a req ≡ forward req'
    → (identity : Identity) × IsAuthorized a req identity × (req' ≡ strip_credentials identity req)
unfolding middleware
forward-IsAuthorized a req req' h =
    elim (Option-cases (bearer_token (header_values (str "Authorization") req.header))) [
      | inl nothing ↦ absurd (ground arith)
      | inr (token, presented) ↦ elim (Option-cases (a.verifier token)) [
        | inl refused ↦ absurd (ground arith)
        | inr (identity, verified) ↦
            (let ((issuer, subject, tenant, scopes), e) =
                (admit-eq-forward a identity req req').0 (ground arith) in
              (
                identity,
                record {
                  token = token;
                  presented = presented;
                  verified = verified;
                  issuer = issuer;
                  subject = subject;
                  tenant = tenant;
                  scopes = scopes;
                },
                e,
              ))
      ]
    ]

authorized_forward :
    (a : Authenticator) (req req' : Request) (identity : Identity)
    → IsAuthorized a req identity
    → req' ≡ strip_credentials identity req
    → middleware a req ≡ forward req'
unfolding middleware
authorized_forward a req req' identity h e =
    rw (h.presented, h.verified, middleware)
      ((admit-eq-forward a identity req req').1 ((h.issuer, h.subject, h.tenant, h.scopes), e))

-- The handler behind the middleware is called exactly when the request is authorized, and then it
-- gets the request with the verified identity and without its three credential headers.
pub middleware-eq-forward :
    (a : Authenticator) (req req' : Request)
    → (middleware a req ≡ forward req') ↔ (
        (identity : Identity) × IsAuthorized a req identity
        × (req' ≡ strip_credentials identity req))
middleware-eq-forward a req req' = (
  forward-IsAuthorized a req req',
  λ t. let (identity, h, e) = t in authorized_forward a req req' identity h e,
)

abbrev pub is_credential : Text → Bool
is_credential name =
    text_eq (canonical_key (str "Authorization")) (canonical_key name)
    || text_eq (canonical_key (str "Proxy-Authorization")) (canonical_key name)
    || text_eq (canonical_key (str "Cookie")) (canonical_key name)

-- Behind the middleware the three credential headers are empty, every other header is as it was,
-- and so are the query, the body and its length; the identity is the verified one.
pub strip_credentials_lem :
    (identity : Identity) (req : Request) (name : Text)
    → (header_values name (strip_credentials identity req).header
        ≡ (if is_credential name then [] else header_values name req.header))
      × ((strip_credentials identity req).identity ≡ some identity)
      × ((strip_credentials identity req).query ≡ req.query)
      × ((strip_credentials identity req).body ≡ req.body)
      × ((strip_credentials identity req).content_length ≡ req.content_length)
unfolding strip_credentials
strip_credentials_lem identity req name = (simp values-del (ground arith), refl, refl, refl, refl)
