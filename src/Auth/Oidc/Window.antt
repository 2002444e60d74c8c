-- ===== src/Auth/Oidc/Window.antt =====
-- The time in which a token is good, and what the middleware makes of an identity that was
-- verified.
use a2a_red_panda_server_con.Prelude.{
  Bool, false, Text, str, Assoc, lookup, ℕ, ◌≤◌, ◌≡◌, subst, ◌≢◌, Option, none, some, [], arith,
  text_eq, text_eq_iff, refl, sym, ◌∙◌, inl, inr, true, ◌==◌, if◌then◌else◌, Option-cases, length,
  length_given,
}
use a2a_red_panda_server_con.Auth.Bearer.{bearer_token}
use a2a_red_panda_server_con.Auth.Middleware.{
  unauthenticated, permission_denied, has_scopes, strip_credentials, admit, middleware,
}
use a2a_red_panda_server_con.Auth.Oidc.Claims.{
  Json, Numbers, string_claim, required_string_claim, required_numeric_date, OidcVerifier, verify,
}
use a2a_red_panda_server_con.Auth.Oidc.Verified.{IsBegun, verify-IsVerified, verify_complete}
use a2a_red_panda_server_con.Auth.Scope.{Authenticator}
use a2a_red_panda_server_con.Http.{header_values, Request, forward, reply}
use a2a_red_panda_server_con.Identity.{Identity}
use a2a_red_panda_server_con.Prelude.Options.{bind-eq-some}
use a2a_red_panda_server_con.Strings.{trim_space}

IsBegun-later :
    (first second skew : ℕ) (o : Option ℕ)
    → first ≤ second
    → IsBegun first skew o
    → IsBegun second skew o
IsBegun-later first second skew none h b = tt
IsBegun-later first second skew (some t) h b = omega arith

-- A token that was verified at two times, each time as the same identity, is verified as it at
-- every time between them: the times at which a token is accepted have no gap.
pub verify_between :
    (n : Numbers) (v : OidcVerifier) (raw_token : Text) (i : Identity) (first second third : ℕ)
    → first ≤ second
    → second ≤ third
    → verify n v first raw_token ≡ some i
    → verify n v third raw_token ≡ some i
    → verify n v second raw_token ≡ some i
verify_between n v raw_token i first second third early late h k =
    let (claims, c0, c1, c2, e, c3, c4, o, c5, c6, c7, c8) =
      verify-IsVerified n v first raw_token i h in
    let (claims', d0, d1, d2, e', d3, d4, o', d5, d6, d7, d8) =
      verify-IsVerified n v third raw_token i k in
    let claims_same : claims' ≡ claims = cc in
    let d3' : required_numeric_date n claims (str "exp") ≡ some e' =
      subst (λ m. required_numeric_date n m (str "exp") ≡ some e') claims_same d3 in
    let same : e ≡ e' = cc in
    verify_complete n v second raw_token i (
      claims,
      c0,
      c1,
      c2,
      e,
      c3,
      omega arith,
      o,
      c5,
      IsBegun-later first second v.clock_skew o early c6,
      c7,
      c8,
    )

kept_unless :
    (b : Bool) (value s : Text)
    → (if b then none else some value) ≡ some s
    → (b ≡ false) × (value ≡ s)
kept_unless true value s h = cc
kept_unless false value s h = (refl, cc)

trim_space_nil : text_eq (trim_space []) [] ≡ true
unfolding trim_space text_eq
trim_space_nil = refl

nonblank_given :
    (value s : Text)
    → (if text_eq (trim_space value) [] then none else some value) ≡ some s
    → s ≢ []
nonblank_given value s h empty =
    let (given, same) = kept_unless (text_eq (trim_space value) []) value s h in
    let blank : text_eq (trim_space value) [] ≡ true = rw (same, empty) trim_space_nil in cc

required_string_claim_given :
    (claims : Assoc Json) (name : Text) (s : Text)
    → required_string_claim claims name ≡ some s
    → s ≢ []
unfolding required_string_claim
required_string_claim_given claims name s h =
    let (raw, _, h) = bind-eq-some (lookup name claims) _ h in
    let (value, _, h) = bind-eq-some (string_claim raw) _ h in nonblank_given value s h

-- The tests on an identity that was verified pass.
admit_verified :
    (n : Numbers) (v : OidcVerifier) (now : ℕ) (a : Authenticator) (i : Identity) (req : Request)
    (token : Text)
    → a.issuer ≡ v.issuer
    → verify n v now token ≡ some i
    → admit a i req ≡ (
        if has_scopes i.scopes a.required_scopes
        then forward (strip_credentials i req)
        else reply (permission_denied a))
unfolding admit
admit_verified n v now a i req token issuer verified =
    let (claims, _, named, tenanted, _, _, _, _, _, _, _, from) =
      verify-IsVerified n v now token i verified in
    let subject : (length i.subject == 0) ≡ false =
      length_given i.subject (required_string_claim_given claims (str "sub") i.subject named) in
    let tenant : (length i.tenant == 0) ≡ false =
      length_given i.tenant (required_string_claim_given claims v.tenant_claim i.tenant tenanted) in
    let known : text_eq i.issuer a.issuer ≡ true =
      (text_eq_iff i.issuer a.issuer).1 (from ∙ sym issuer) in
    rw (known, subject, tenant) refl

-- A request that presents a bearer token, and the middleware over a verifier that verifies as the
-- OIDC one does at the time `now`, and for the issuer of that verifier: the middleware lets the
-- request pass as the verified identity's where the token has all the required scopes, and answers
-- 403 where one is missing; where the token is not verified, it answers 401, and only there.
pub middleware_verified :
    (n : Numbers) (v : OidcVerifier) (now : ℕ) (a : Authenticator) (req : Request) (token : Text)
    → ((raw : Text) → a.verifier raw ≡ verify n v now raw)
    → a.issuer ≡ v.issuer
    → bearer_token (header_values (str "Authorization") req.header) ≡ some token
    → middleware a req ≡ (elim (verify n v now token) [
      | none ↦ reply unauthenticated
      | some i ↦
          if has_scopes i.scopes a.required_scopes
          then forward (strip_credentials i req)
          else reply (permission_denied a)
    ])
unfolding middleware
middleware_verified n v now a req token same issuer presented =
    elim (Option-cases (verify n v now token)) [
      | inl refused ↦ simp (middleware, presented, same token, refused)
      | inr (i, verified) ↦ simp (
        middleware,
        presented,
        same token,
        verified,
        admit_verified n v now a i req token issuer verified,
      )
    ]
