-- ===== src/Auth/Scope.antt =====
-- internal/auth/auth.go: `validScopeToken` and `NewAuthenticator`.
pub mod Valid
use a2a_red_panda_server_con.Prelude.{
  Text, ℕ, Bool, true, false, ◌&&◌, ◌||◌, Option, none, some, List, [], ◌∷◌, length, ltb, leb, ◌==◌,
  if◌then◌else◌, Result, ok, err, ◌>>=◌, ◌>>◌, refuse_if, or_fail, not,
}
use a2a_red_panda_server_con.Identity.{Identity}

-- The bytes that the loop refuses.
unfoldable pub bad_scope_byte : ℕ → Bool
bad_scope_byte c = ltb c 0x21 || ltb 0x7e c || c == b'"' || c == 92

unfoldable pub scope_loop : Text → Bool
scope_loop [] = true
scope_loop (c ∷ s) = let rest = scope_loop s in if bad_scope_byte c then false else rest

unfoldable pub valid_scope_token : Text → Bool
unfolding scope_loop
valid_scope_token [] = false
valid_scope_token (c ∷ s) = scope_loop (c ∷ s)

-- The verifier is an interface: it turns a raw token into an identity, or fails.
pub record Authenticator : Type 0 where
  pub verifier : Text → Option Identity
  pub issuer : Text
  pub required_scopes : List Text

pub data ConfigError : Type 0 where
  verifier_required issuer_required scope_required : ConfigError
  scope_invalid : Text → ConfigError

-- `for _, scope := range requiredScopes`
unfoldable pub check_scopes : List Text → Result ConfigError (Unit {0})
check_scopes [] = ok tt
check_scopes (scope ∷ rest) = do
  refuse_if (not (valid_scope_token scope)) (scope_invalid scope)
  check_scopes rest

-- A nil verifier is `none`.
unfoldable pub new_authenticator :
    Option (Text → Option Identity) → Text → List Text → Result ConfigError Authenticator
new_authenticator verifier issuer required_scopes = do
  v ← or_fail verifier verifier_required
  refuse_if (length issuer == 0) issuer_required
  refuse_if (length required_scopes == 0) scope_required
  check_scopes required_scopes
  ok (record { verifier = v; issuer = issuer; required_scopes = required_scopes })
