-- ===== src/Tests/AuthTests.antt =====
-- The authentication theorems at concrete requests.
use a2a_red_panda_server_con.Prelude.{
  ok, ℕ, Text, text_eq, str, contains, lookup, without, ◌≤◌, ◌≡◌, refl, ◌≢◌, ◌↔◌, ◌⊎◌, Option, none,
  some, List, [], ◌∷◌, arith, if◌then◌else◌, All,
}
use a2a_red_panda_server_con.Auth.Bearer.{
  b64_byte, valid_bearer_credential, skip_spaces, bearer_value, bearer_token,
}
use a2a_red_panda_server_con.Auth.Bearer.Token.{IsBearerValue, bearer_token-IsBearerValue}
use a2a_red_panda_server_con.Auth.Interceptor.{
  Payload, before, get_task, request_tenant, set_request_tenant, text_attribute, authenticated_user,
}
use a2a_red_panda_server_con.Auth.Interceptor.Tenancy.{IsOther, before_tenant}
use a2a_red_panda_server_con.Auth.Middleware.{
  unauthenticated, invalid_token_challenge, scope_challenge, permission_denied, has_scopes,
  strip_credentials, admit, middleware,
}
use a2a_red_panda_server_con.Auth.Middleware.Admission.{
  IsAuthorized, middleware-eq-forward, is_credential, strip_credentials_lem,
}
use a2a_red_panda_server_con.Auth.Middleware.Refusal.{
  refusal_headers, middleware-eq-reply, IsKnown, LacksScope,
}
use a2a_red_panda_server_con.Auth.Scope.{new_authenticator, Authenticator}
use a2a_red_panda_server_con.Auth.Scope.Valid.{new_authenticator-eq-ok, IsScopeToken}
use a2a_red_panda_server_con.Http.{
  canonical_key, header_values, header_del, header_set, no_body, Request, Response, forward, reply,
}
use a2a_red_panda_server_con.Identity.{owner_key, Identity}
use a2a_red_panda_server_con.Identity.OwnerKey.{owner_key_injective}
use a2a_red_panda_server_con.Strings.{cut, equal_fold}
use a2a_red_panda_server_con.Tests.Base.{bob, alice}

-- A verifier that knows one token, and the authenticator around it.
abbrev verify : Text → Option Identity
verify token = if text_eq token (str "abc.def==") then some alice else none

abbrev gate : Authenticator
gate = record { verifier = verify; issuer = str "https://issuer"; required_scopes = str "a2a" ∷ [] }

abbrev strict_gate : Authenticator
strict_gate = record gate { required_scopes = str "a2a" ∷ str "admin" ∷ [] }

abbrev value : Text
value = str "bEARER  abc.def=="

abbrev ask : List Text → Request
ask authorization = record {
  header =
      (str "Authorization", authorization)
      ∷ (str "Cookie", str "x" ∷ [])
      ∷ (str "Accept", str "y" ∷ [])
      ∷ [];
  query = [];
  body = no_body;
  content_length = none;
  identity = none;
}

-- What the tests of the middleware compute with.
auth : Unit {0}
unfolding middleware admit has_scopes strip_credentials header_values header_del header_set
    canonical_key lookup without bearer_token bearer_value cut equal_fold skip_spaces
    valid_bearer_credential text_eq str contains b64_byte
auth = tt

admitted : middleware gate (ask (value ∷ [])) ≡ forward (strip_credentials alice (ask (value ∷ [])))
unfolding auth
admitted = refl

two_values_refused : middleware gate (ask (value ∷ value ∷ [])) ≡ reply unauthenticated
unfolding auth
two_values_refused = refl

scope_refused : middleware strict_gate (ask (value ∷ [])) ≡ reply (permission_denied strict_gate)
unfolding auth
scope_refused = refl

middleware-eq-forward_example :
    (middleware gate (ask (value ∷ [])) ≡ forward (strip_credentials alice (ask (value ∷ [])))) ↔ (
      (identity : Identity) × IsAuthorized gate (ask (value ∷ [])) identity
      × (strip_credentials alice (ask (value ∷ []))
          ≡ strip_credentials identity (ask (value ∷ []))))
middleware-eq-forward_example =
    middleware-eq-forward gate (ask (value ∷ [])) (strip_credentials alice (ask (value ∷ [])))

strip_credentials_example :
    (header_values (str "cookie") (strip_credentials alice (ask (value ∷ []))).header ≡ (
      if is_credential (str "cookie")
      then []
      else header_values (str "cookie") (ask (value ∷ [])).header))
    × ((strip_credentials alice (ask (value ∷ []))).identity ≡ some alice)
    × ((strip_credentials alice (ask (value ∷ []))).query ≡ (ask (value ∷ [])).query)
    × ((strip_credentials alice (ask (value ∷ []))).body ≡ (ask (value ∷ [])).body)
    × ((strip_credentials alice (ask (value ∷ []))).content_length
        ≡ (ask (value ∷ [])).content_length)
strip_credentials_example = strip_credentials_lem alice (ask (value ∷ [])) (str "cookie")

abbrev missing_scope : Response
missing_scope = permission_denied strict_gate

middleware-eq-reply_example :
    ((missing_scope ≡ unauthenticated)
      × ((identity : Identity) → IsKnown strict_gate (ask (value ∷ [])) identity → ⊥))
    ⊎ ((missing_scope ≡ permission_denied strict_gate)
        × ((identity : Identity) × IsKnown strict_gate (ask (value ∷ [])) identity
            × LacksScope identity.scopes strict_gate.required_scopes))
middleware-eq-reply_example =
    middleware-eq-reply strict_gate (ask (value ∷ [])) missing_scope scope_refused

two_scopes : All IsScopeToken (str "a2a" ∷ str "admin" ∷ [])
unfolding str
two_scopes = ((cc, omega arith), ((cc, omega arith), tt))

refusal_headers_example :
    (header_values (str "Cache-Control") missing_scope.header ≡ str "no-store" ∷ [])
    × ((header_values (str "WWW-Authenticate") missing_scope.header ≡ invalid_token_challenge ∷ [])
        ⊎ ((scope : Text) × (header_values (str "WWW-Authenticate") missing_scope.header
              ≡ scope_challenge scope ∷ [])
            × All (λ c. (0x20 ≤ c) × (c ≤ 0x7e) × (c ≢ b'"') × (c ≢ 92)) scope))
refusal_headers_example =
    refusal_headers strict_gate (ask (value ∷ [])) missing_scope two_scopes scope_refused

bearer_token-IsBearerValue_example :
    (bearer_token (value ∷ []) ≡ some (str "abc.def=="))
    ↔ ((v : Text) × (value ∷ [] ≡ v ∷ []) × IsBearerValue v (str "abc.def=="))
bearer_token-IsBearerValue_example = bearer_token-IsBearerValue (value ∷ []) (str "abc.def==")

new_authenticator-eq-ok_example :
    (new_authenticator (some verify) (str "https://issuer") (str "a2a" ∷ []) ≡ ok gate) ↔ (
      (◌≡◌ {A = Option (Text → Option Identity)} (some verify) (some gate.verifier))
      × (str "https://issuer" ≢ [])
      × (str "a2a" ∷ [] ≢ [])
      × All IsScopeToken (str "a2a" ∷ [])
      × (gate.issuer ≡ str "https://issuer")
      × (gate.required_scopes ≡ str "a2a" ∷ []))
new_authenticator-eq-ok_example =
    new_authenticator-eq-ok (some verify) (str "https://issuer") (str "a2a" ∷ []) gate

owner_key_injective_example :
    (owner_key alice ≡ owner_key bob)
    ↔ ((alice.issuer ≡ bob.issuer) × (alice.tenant ≡ bob.tenant) × (alice.subject ≡ bob.subject))
owner_key_injective_example = owner_key_injective alice bob

abbrev call : Payload ℕ
call = get_task [] 7

call_accepted : before (some alice) call ≡ ok (get_task (str "acme") 7, authenticated_user alice)
unfolding before request_tenant set_request_tenant
call_accepted = refl

before_tenant_example :
    (identity : Identity) × (◌≡◌ {A = Option Identity} (some alice) (some identity))
    × ((IsOther {R = ℕ} (get_task (str "acme") 7) × (get_task (str "acme") 7 ≡ call))
        ⊎ (request_tenant {R = ℕ} (get_task (str "acme") 7) ≡ identity.tenant))
    × ((authenticated_user alice).name ≡ owner_key identity)
    × (lookup (str "tenant") (authenticated_user alice).attributes
        ≡ some (text_attribute identity.tenant))
before_tenant_example =
    before_tenant (some alice) call (get_task (str "acme") 7) (authenticated_user alice)
      call_accepted
