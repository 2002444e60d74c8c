-- ===== src/Auth/Middleware.antt =====
-- internal/auth/auth.go: `Authenticator.Middleware` and `writeAuthError`.
pub mod Admission
pub mod Refusal
use a2a_red_panda_server_con.Prelude.{
  Text, ℕ, Bool, true, false, ◌&&◌, ◌||◌, not, Option, none, some, List, [], ◌∷◌, ◌++◌, str, length,
  text_eq, contains, ◌==◌, if◌then◌else◌,
}
use a2a_red_panda_server_con.Identity.{Identity}
use a2a_red_panda_server_con.Strings.{join}
use a2a_red_panda_server_con.Http.{
  Header, Request, Response, Handling, forward, reply, header_values, header_del, header_set,
  error_json,
}
use a2a_red_panda_server_con.Auth.Bearer.{bearer_token}
use a2a_red_panda_server_con.Auth.Scope.{Authenticator}

-- The value of `WWW-Authenticate` on status 401 and on status 403.
abbrev pub invalid_token_challenge : Text
invalid_token_challenge =
    str "Bearer realm="
    ++ (b'"'
        ∷ (str "bridge-a2a"
            ++ (b'"' ∷ (str ", error=" ++ (b'"' ∷ (str "invalid_token" ++ (b'"' ∷ [])))))))

abbrev pub scope_challenge : Text → Text
scope_challenge scope =
    str "Bearer realm="
    ++ (b'"'
        ∷ (str "bridge-a2a"
            ++ (b'"'
                ∷ (str ", error="
                    ++ (b'"'
                        ∷ (str "insufficient_scope"
                            ++ (b'"' ∷ (str ", scope=" ++ (b'"' ∷ (scope ++ (b'"' ∷ [])))))))))))

unfoldable pub challenge : ℕ → Text → Header → Header
challenge status scope h =
    if status == 401
    then header_set (str "WWW-Authenticate") invalid_token_challenge h
    else if status == 403
    then header_set (str "WWW-Authenticate") (scope_challenge scope) h
    else h

unfoldable pub write_auth_error : (status : ℕ) (code message scope : Text) → Response
unfolding challenge
write_auth_error status code message scope = record {
  status = status;
  header = challenge status scope (
      header_set (str "Cache-Control") (str "no-store")
        (header_set (str "Content-Type") (str "application/json") []));
  content = error_json status code message;
}

abbrev pub unauthenticated : Response
unauthenticated =
    write_auth_error 401 (str "UNAUTHENTICATED") (str "valid bearer authentication is required") []

abbrev pub permission_denied : Authenticator → Response
permission_denied a =
    write_auth_error 403 (str "PERMISSION_DENIED") (str "required scope is missing")
      (join (str " ") a.required_scopes)

-- The loop over the required scopes: whether the identity has them all.
unfoldable pub has_scopes : List Text → List Text → Bool
has_scopes granted [] = true
has_scopes granted (required ∷ rest) =
    let more = has_scopes granted rest in if not (contains granted required) then false else more

-- `request.Clone(WithIdentity(…))` and the three deletions.
unfoldable pub strip_credentials : Identity → Request → Request
strip_credentials identity req = record req {
  header =
      header_del (str "Cookie")
        (header_del (str "Proxy-Authorization") (header_del (str "Authorization") req.header));
  identity = some identity;
}

-- The tests on the verified identity, and what follows them.
unfoldable pub admit : Authenticator → Identity → Request → Handling
admit a identity req =
    if not (text_eq identity.issuer a.issuer)
      || length identity.subject == 0
      || length identity.tenant == 0
    then reply unauthenticated
    else if has_scopes identity.scopes a.required_scopes
    then forward (strip_credentials identity req)
    else reply (permission_denied a)

unfoldable pub middleware : Authenticator → Request → Handling
middleware a req = elim (bearer_token (header_values (str "Authorization") req.header)) [
  | none ↦ reply unauthenticated
  | some token ↦ elim (a.verifier token) [
    | none ↦ reply unauthenticated
    | some identity ↦ admit a identity req
  ]
]
