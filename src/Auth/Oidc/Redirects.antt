-- ===== src/Auth/Oidc/Redirects.antt =====
-- Which URLs the verifier's client reaches.
use a2a_red_panda_server_con.Prelude.{
  inl, inr, Text, text_eq, str, text_eq_iff, ℕ, suc, ◌≤◌, ◌≡◌, subst, ◌≢◌, ◌↔◌, ◌⊎◌, Bool, true,
  false, ◌&&◌, ◌||◌, not, none, some, List, [], ◌∷◌, arith, leb, Option-cases, ok, err, length, All,
  Result, refuse_if, or_fail, >>=-eq-ok, refuse_if-eq-ok, or_fail-eq-ok, ok-injective, not-false,
}
use a2a_red_panda_server_con.Auth.Oidc.{
  not_absolute, has_query, bad_redirect_url, too_many_redirects, redirect_origin, check_scheme,
  check_url, validate_remote_url, wrap_error, effective_port, same_origin, redirect_policy,
}
use a2a_red_panda_server_con.Config.{is_loopback_host, has_user}
use a2a_red_panda_server_con.Platform.{Url, Platform}

-- A URL to which the verifier may connect: one of the HTTPS scheme, or of the HTTP scheme to a
-- loopback host where that is allowed, with a host and without credentials and fragment.
abbrev pub IsSafeUrl : Platform → (allow_loopback_http : Bool) → Url → Type 0
IsSafeUrl p allow u =
    (u.host ≢ [])
    × (u.user ≡ none)
    × (u.fragment ≡ [])
    × (u.opaque ≡ [])
    × ((p.to_lower u.scheme ≡ str "https")
        ⊎ (p.to_lower u.scheme ≡ str "http")
          × (allow ≡ true)
          × (is_loopback_host p u.hostname ≡ true))

-- The same scheme, host and port, but for letter case.
abbrev pub IsSameOrigin : Platform → (expected candidate : Url) → Type 0
IsSameOrigin p a b =
    (p.fold a.scheme ≡ p.fold b.scheme)
    × (p.fold a.hostname ≡ p.fold b.hostname)
    × (effective_port p a ≡ effective_port p b)

pub same_origin-IsSameOrigin :
    (p : Platform) (a b : Url) → (same_origin p a b ≡ true) ↔ IsSameOrigin p a b
unfolding same_origin
same_origin-IsSameOrigin p a b = ground (
  arith,
  text_eq_iff (p.fold a.scheme) (p.fold b.scheme),
  text_eq_iff (p.fold a.hostname) (p.fold b.hostname),
  text_eq_iff (effective_port p a) (effective_port p b),
)

no_user : (u : Url) → has_user u ≡ false → u.user ≡ none
no_user u h = elim (Option-cases u.user) [
  | inl absent ↦ absent
  | inr (password, given) ↦ (let given' : has_user u ≡ true = simp (has_user, given) in cc)
]

check_scheme_lem :
    (p : Platform) (allow : Bool) (u : Url)
    → check_scheme p allow u ≡ ok tt
    → (p.to_lower u.scheme ≡ str "https")
      ⊎ (p.to_lower u.scheme ≡ str "http") × (allow ≡ true) × (is_loopback_host p u.hostname ≡ true)
unfolding check_scheme
check_scheme_lem p allow u h = ground (
  arith,
  text_eq_iff (p.to_lower u.scheme) (str "https"),
  text_eq_iff (p.to_lower u.scheme) (str "http"),
)

pub check_url-IsSafeUrl :
    (p : Platform) (allow query : Bool) (u : Url)
    → check_url p allow query u ≡ ok tt
    → IsSafeUrl p allow u
unfolding check_url
check_url-IsSafeUrl p allow query u h =
    let bad =
      text_eq u.host [] || has_user u || not (text_eq u.fragment []) || not (text_eq u.opaque []) in
    let (_, parts, h) = >>=-eq-ok (refuse_if bad not_absolute) _ h in
    let (_, _, scheme) =
      >>=-eq-ok (refuse_if (not query && not (text_eq u.raw_query [])) has_query) _ h in
    let fine : bad ≡ false = refuse_if-eq-ok bad not_absolute parts in
    (
      λ e. ground (arith, fine, text_eq_iff u.host [], e),
      no_user u (ground (arith, fine)),
      ground (arith, fine, text_eq_iff u.fragment []),
      ground (arith, fine, text_eq_iff u.opaque []),
      check_scheme_lem p allow u scheme,
    )

pub validate_remote_url-IsSafeUrl :
    (p : Platform) (raw : Text) (allow query : Bool) (u : Url)
    → validate_remote_url p raw allow query ≡ ok u
    → (p.parse_request_uri raw ≡ some u) × IsSafeUrl p allow u
unfolding validate_remote_url
validate_remote_url-IsSafeUrl p raw allow query u h =
    let (url, parsed, h) = >>=-eq-ok (or_fail (p.parse_request_uri raw) not_absolute) _ h in
    let (_, checked, h) = >>=-eq-ok (check_url p allow query url) _ h in
    subst (λ u. (p.parse_request_uri raw ≡ some u) × IsSafeUrl p allow u) (ok-injective h)
      (
        or_fail-eq-ok (p.parse_request_uri raw) not_absolute parsed,
        check_url-IsSafeUrl p allow query url checked,
      )

pub wrap_error-eq-ok :
    {E F A : Type 0} (f : E → F) (r : Result E A) {a : A} → wrap_error f r ≡ ok a → r ≡ ok a
unfolding wrap_error
wrap_error-eq-ok f (ok b) h = cc
wrap_error-eq-ok f (err e) h = cc

-- The text of a request's URL, which is a safe one of the issuer's origin.
abbrev pub IsIssuerUrl : Platform → (issuer : Url) → Text → Type 0
IsIssuerUrl p issuer raw =
    (u : Url) × (p.parse_request_uri raw ≡ some u)
    × IsSafeUrl p (text_eq issuer.scheme (str "http")) u
    × IsSameOrigin p issuer u

redirect_policy-IsIssuerUrl :
    (p : Platform) (issuer : Url) (raw : Text) (via : ℕ)
    → redirect_policy p issuer raw via ≡ ok tt
    → (via ≤ 4) × IsIssuerUrl p issuer raw
unfolding redirect_policy
redirect_policy-IsIssuerUrl p issuer raw via h =
    let allow = text_eq issuer.scheme (str "http") in
    let (_, count, h) = >>=-eq-ok (refuse_if (leb 5 via) too_many_redirects) _ h in
    let (u, valid, h) =
      >>=-eq-ok (wrap_error bad_redirect_url (validate_remote_url p raw allow true)) _ h in
    let few = refuse_if-eq-ok (leb 5 via) too_many_redirects count in
    let (parsed, safe) =
      validate_remote_url-IsSafeUrl p raw allow true u
        (wrap_error-eq-ok bad_redirect_url (validate_remote_url p raw allow true) valid) in
    let near : same_origin p issuer u ≡ true =
      not-false (same_origin p issuer u)
        (refuse_if-eq-ok (not (same_origin p issuer u)) redirect_origin h) in
    (ground (arith, few), (u, parsed, safe, (same_origin-IsSameOrigin p issuer u).0 near))

-- The requests that a client makes behind its first one, the last of them first: it follows a
-- redirect where the policy allows it.
pub data IsFollowed (p : Platform) (issuer : Url) : List Text → Type 0 where
  first_request : IsFollowed p issuer []
  redirected :
      {via : List Text}
      → IsFollowed p issuer via
      → (target : Text) → redirect_policy p issuer target (suc (length via)) ≡ ok tt
      → IsFollowed p issuer (target ∷ via)

-- A client that follows redirects as the policy allows makes at most four requests behind its first
-- one, and each of them goes to the origin of the issuer, to a URL with a host and without
-- credentials and fragment, over HTTPS or, if the issuer's scheme is HTTP, over HTTP to a loopback
-- host.
pub IsFollowed-IsIssuerUrl :
    (p : Platform) (issuer : Url) {via : List Text}
    → IsFollowed p issuer via
    → (length via ≤ 4) × All (IsIssuerUrl p issuer) via
IsFollowed-IsIssuerUrl p issuer first_request = (omega arith, tt)
IsFollowed-IsIssuerUrl p issuer (redirected {via = via} earlier target allowed) =
    let (count, reached) = redirect_policy-IsIssuerUrl p issuer target (suc (length via)) allowed in
    (count, (reached, (IsFollowed-IsIssuerUrl p issuer earlier).1))
