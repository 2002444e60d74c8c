-- ===== src/Auth/Oidc/Verified.antt =====
-- What a token that was verified has established.
use a2a_red_panda_server_con.Prelude.Options.{require, bind-eq-some, require-eq-some}
use a2a_red_panda_server_con.Prelude.{
  Text, str, Assoc, ℕ, ◌+◌, ◌≤◌, ◌<◌, ◌≡◌, refl, subst, ◌↔◌, true, not, Option, none, some, arith,
  ltb, ltb→lt, lt→ltb,
}
use a2a_red_panda_server_con.Auth.Oidc.Claims.{
  Json, Numbers, required_string_claim, optional_numeric_date, required_numeric_date, token_scopes,
  OidcVerifier, too_early, verify,
}
use a2a_red_panda_server_con.Identity.{Identity}

-- A token's time is not over, within the skew.
abbrev pub IsBegun : (now skew : ℕ) → Option ℕ → Type 0
IsBegun now skew none = Unit
IsBegun now skew (some not_before) = not_before ≤ now + skew

too_early-IsBegun :
    (now skew : ℕ) (o : Option ℕ) → (not (too_early now skew o) ≡ true) ↔ IsBegun now skew o
unfolding too_early
too_early-IsBegun now skew none = (λ h. tt, λ h. refl)
too_early-IsBegun now skew (some t) = ground arith

-- The claims hold the identity, and the times around `now` that the token is good for.
abbrev pub IsVerified : Numbers → OidcVerifier → (now : ℕ) → Text → Identity → Type 0
IsVerified n v now raw_token i =
    (claims : Assoc Json) × (v.verify_claims raw_token ≡ some claims)
    × (required_string_claim claims (str "sub") ≡ some i.subject)
    × (required_string_claim claims v.tenant_claim ≡ some i.tenant)
    × (expires : ℕ) × (required_numeric_date n claims (str "exp") ≡ some expires)
    × (now < expires + v.clock_skew)
    × (not_before : Option ℕ) × (optional_numeric_date n claims (str "nbf") ≡ some not_before)
    × IsBegun now v.clock_skew not_before
    × (token_scopes claims ≡ some i.scopes)
    × (i.issuer ≡ v.issuer)

pub verify-IsVerified :
    (n : Numbers) (v : OidcVerifier) (now : ℕ) (raw_token : Text) (i : Identity)
    → verify n v now raw_token ≡ some i
    → IsVerified n v now raw_token i
unfolding verify
verify-IsVerified n v now raw_token i h =
    let (claims, h0, h) = bind-eq-some (v.verify_claims raw_token) _ h in
    let (subject, h1, h) = bind-eq-some (required_string_claim claims (str "sub")) _ h in
    let (tenant, h2, h) = bind-eq-some (required_string_claim claims v.tenant_claim) _ h in
    let (expires, h3, h) = bind-eq-some (required_numeric_date n claims (str "exp")) _ h in
    let (_, h4, h) = bind-eq-some (require (ltb now (expires + v.clock_skew))) _ h in
    let (not_before, h5, h) = bind-eq-some (optional_numeric_date n claims (str "nbf")) _ h in
    let (_, h6, h) = bind-eq-some (require (not (too_early now v.clock_skew not_before))) _ h in
    let (scopes, h7, h) = bind-eq-some (token_scopes claims) _ h in
    let same : record { issuer = v.issuer; subject = subject; tenant = tenant; scopes = scopes }
        ≡ i =
      cc in
    subst (IsVerified n v now raw_token) same (
      claims,
      h0,
      h1,
      h2,
      expires,
      h3,
      ltb→lt now (expires + v.clock_skew) (require-eq-some _ h4),
      not_before,
      h5,
      (too_early-IsBegun now v.clock_skew not_before).0 (require-eq-some _ h6),
      h7,
      refl,
    )

pub verify_complete :
    (n : Numbers) (v : OidcVerifier) (now : ℕ) (raw_token : Text) (i : Identity)
    → IsVerified n v now raw_token i
    → verify n v now raw_token ≡ some i
unfolding verify
verify_complete n v now raw_token i
      (claims, h0, h1, h2, expires, h3, h4, not_before, h5, h6, h7, h8) =
    let timely = lt→ltb now (expires + v.clock_skew) h4 in
    let begun = (too_early-IsBegun now v.clock_skew not_before).1 h6 in
    rw (h0, h1, h2, h3, timely, h5, begun, h7, ← h8) refl
