-- ===== src/Auth/Scope/Valid.antt =====
-- What an authenticator that was built has established about its scopes.
use a2a_red_panda_server_con.Prelude.{
  Text, ℕ, ◌≤◌, ◌≡◌, ◌≢◌, refl, ◌↔◌, true, Option, none, some, List, [], ◌∷◌, arith, All,
  All-append, ok,
}
use a2a_red_panda_server_con.Identity.{Identity}
use a2a_red_panda_server_con.Strings.{join}
use a2a_red_panda_server_con.Auth.Scope.{
  bad_scope_byte, scope_loop, valid_scope_token, Authenticator, check_scopes, new_authenticator,
}

-- A printable byte that neither ends nor escapes a quoted string.
abbrev pub IsScopeByte : ℕ → Type 0
IsScopeByte c = (0x21 ≤ c) × (c ≤ 0x7e) × (c ≢ b'"') × (c ≢ 92)

abbrev pub IsScopeToken : Text → Type 0
IsScopeToken s = (s ≢ []) × All IsScopeByte s

scope_loop-All : (s : Text) → (scope_loop s ≡ true) ↔ All IsScopeByte s
unfolding scope_loop bad_scope_byte
scope_loop-All [] = (λ h. tt, λ h. refl)
scope_loop-All (c ∷ s) = grind (arith, scope_loop-All s)

pub valid_scope_token-IsScopeToken : (s : Text) → (valid_scope_token s ≡ true) ↔ IsScopeToken s
unfolding valid_scope_token
valid_scope_token-IsScopeToken [] = (λ h. cc, λ h. absurd (h.0 refl))
valid_scope_token-IsScopeToken (c ∷ s) =
    (λ h. (cc, (scope_loop-All (c ∷ s)).0 h), λ h. (scope_loop-All (c ∷ s)).1 h.1)

check_scopes-All : (l : List Text) → (check_scopes l ≡ ok tt) ↔ All IsScopeToken l
unfolding check_scopes
check_scopes-All [] = (λ h. tt, λ h. refl)
check_scopes-All (s ∷ l) = ground (arith, check_scopes-All l, valid_scope_token-IsScopeToken s)

-- An authenticator is built exactly when there is a verifier, the issuer is not empty, and there is
-- at least one scope, each of them one or more printable bytes other than a quote and a backslash;
-- it then holds these three as they were given.
pub new_authenticator-eq-ok :
    (verifier : Option (Text → Option Identity)) (issuer : Text) (scopes : List Text)
    (a : Authenticator)
    → (new_authenticator verifier issuer scopes ≡ ok a) ↔ (
        (verifier ≡ some a.verifier)
        × (issuer ≢ [])
        × (scopes ≢ [])
        × All IsScopeToken scopes
        × (a.issuer ≡ issuer)
        × (a.required_scopes ≡ scopes))
unfolding new_authenticator
new_authenticator-eq-ok none issuer scopes a = ground arith
new_authenticator-eq-ok (some v) [] scopes a = ground arith
new_authenticator-eq-ok (some v) (c ∷ issuer) [] a = ground arith
new_authenticator-eq-ok (some v) (c ∷ issuer) (s ∷ scopes) a =
    ground (arith, check_scopes-All (s ∷ scopes))

-- A property of bytes that the separator and every text have holds all through the joined text.
pub join-All :
    (P : ℕ → Type 0) (sep : Text) (l : List Text)
    → All P sep
    → All (λ s. All P s) l
    → All P (join sep l)
unfolding join
join-All P sep [] p h = tt
join-All P sep (s ∷ []) p (h, _) = h
join-All P sep (s ∷ t ∷ l) p (h, hs) =
    All-append P s _ h (All-append P sep _ p (join-All P sep (t ∷ l) p hs))
