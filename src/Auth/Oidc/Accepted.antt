-- ===== src/Auth/Oidc/Accepted.antt =====
-- The verifier accepts the configuration that was loaded for it.
use a2a_red_panda_server_con.Prelude.{
  Text, text_eq, str, contains, text_eq_iff, ◌≡◌, refl, ◌≢◌, inl, inr, true, false, ◌&&◌, ◌||◌, not,
  some, [], ◌∷◌, arith, Bool-cases, ok, refuse_if, or_fail, >>=-eq-ok, refuse_if-eq-ok,
  or_fail-eq-ok, text_eq_refl, Assoc, ap, ◌∙◌, length_given,
}
use a2a_red_panda_server_con.Auth.Oidc.{
  validate_remote_url, check_scheme, check_url, wrap_error, validate_oidc_config,
}
use a2a_red_panda_server_con.Auth.Oidc.Signing.{IsDistinct, check_signing_lem}
use a2a_red_panda_server_con.Config.{
  bad_issuer, issuer_scheme, issuer_host, is_loopback_host, is_local, is_http, has_user, OidcConfig,
  Config, no_oidc, getenv, env_or_default, enabled,
}
use a2a_red_panda_server_con.Config.Bounds.{parse_positive_duration_test, load_clock_skew_test}
use a2a_red_panda_server_con.Config.Load.{load}
use a2a_red_panda_server_con.Config.Loaded.{load-IsLoaded}
use a2a_red_panda_server_con.Config.Oidc.{check_issuer}
use a2a_red_panda_server_con.Config.Parts.{not_empty, IsOidcLoaded, load_oidc_config-IsOidcLoaded}
use a2a_red_panda_server_con.Platform.{Url, Platform}
use a2a_red_panda_server_con.Strings.{trim_space}
use a2a_red_panda_server_con.Strings.Trim.{trim_space_twice}

-- What the package net/url documents of a URL that was parsed: it has an opaque part or a host, and
-- not both; and what `strings.ToLower` is on the two schemes.
pub record IsDocumented (p : Platform) : Type 0 where
  pub opaque_or_host :
      (raw : Text) (u : Url) → p.parse_request_uri raw ≡ some u → u.host ≢ [] → u.opaque ≡ []
  pub lower_http : p.to_lower (str "http") ≡ str "http"
  pub lower_https : p.to_lower (str "https") ≡ str "https"

-- The schemes that loading accepts, the verifier accepts.
check_scheme_accepts :
    (p : Platform) (u : Url)
    → IsDocumented p
    → is_http u ≡ true
    → (not (text_eq u.scheme (str "https")) && not (is_loopback_host p u.hostname)) ≡ false
    → check_scheme p true u ≡ ok tt
unfolding check_scheme is_http text_eq str
check_scheme_accepts p u documented web near = elim (Bool-cases (text_eq u.scheme (str "https"))) [
  | inl secure ↦
      (let lowered : p.to_lower u.scheme ≡ str "https" =
          ap p.to_lower ((text_eq_iff u.scheme (str "https")).0 secure) ∙ documented.lower_https in
        let test = (text_eq_iff (p.to_lower u.scheme) (str "https")).1 lowered in
        simp (check_scheme, test))
  | inr insecure ↦
      (let http : text_eq u.scheme (str "http") ≡ true = ground (arith, web, insecure) in
        let lowered : p.to_lower u.scheme ≡ str "http" =
          ap p.to_lower ((text_eq_iff u.scheme (str "http")).0 http) ∙ documented.lower_http in
        let loopback : is_loopback_host p u.hostname ≡ true = ground (arith, near, insecure) in
        simp (check_scheme, lowered, loopback))
]

check_url_accepts :
    (p : Platform) (u : Url) (environment : Text)
    → IsDocumented p
    → u.opaque ≡ []
    → (text_eq u.host []
        || not (is_http u)
        || has_user u
        || not (text_eq u.raw_query [])
        || not (text_eq u.fragment []))
      ≡ false
    → (not (text_eq u.scheme (str "https")) && not (is_loopback_host p u.hostname)) ≡ false
    → check_url p true false u ≡ ok tt
unfolding check_url text_eq
check_url_accepts p u environment documented opaque parts near =
    let scheme = check_scheme_accepts p u documented (ground (arith, parts)) near in
    let host : text_eq u.host [] ≡ false = ground (arith, parts) in
    let user : has_user u ≡ false = ground (arith, parts) in
    let query : text_eq u.raw_query [] ≡ true = ground (arith, parts) in
    let fragment : text_eq u.fragment [] ≡ true = ground (arith, parts) in
    simp (check_url, host, user, query, fragment, opaque, scheme)

host_given :
    (u : Url)
    → (text_eq u.host []
        || not (is_http u)
        || has_user u
        || not (text_eq u.raw_query [])
        || not (text_eq u.fragment []))
      ≡ false
    → u.host ≢ []
host_given u parts = not_empty u.host (ground (arith, parts))

text_eq_nil : (s : Text) → s ≢ [] → text_eq s [] ≡ false
unfolding text_eq
text_eq_nil [] h = absurd (h refl)
text_eq_nil (c ∷ s) h = refl

nothing_seen : (a : Text) → contains [] a ≡ false
unfolding contains
nothing_seen a = refl

check_issuer_lem :
    (p : Platform) (environment issuer : Text)
    → IsDocumented p
    → check_issuer p environment issuer ≡ ok tt
    → (u : Url) × (validate_remote_url p issuer true false ≡ ok u)
unfolding check_issuer validate_remote_url
check_issuer_lem p environment issuer documented h =
    let (u, parsed, h) = >>=-eq-ok (or_fail (p.parse_request_uri issuer) bad_issuer) _ h in
    let bad =
      text_eq u.host []
      || not (is_http u)
      || has_user u
      || not (text_eq u.raw_query [])
      || not (text_eq u.fragment []) in
    let (_, parts, h) = >>=-eq-ok (refuse_if bad bad_issuer) _ h in
    let (_, _, loop) =
      >>=-eq-ok
        (refuse_if (not (text_eq u.scheme (str "https")) && not (is_local environment))
          issuer_scheme)
        _ h in
    let fine : bad ≡ false = refuse_if-eq-ok bad bad_issuer parts in
    let near =
      refuse_if-eq-ok (not (text_eq u.scheme (str "https")) && not (is_loopback_host p u.hostname))
        issuer_host loop in
    let read = or_fail-eq-ok (p.parse_request_uri issuer) bad_issuer parsed in
    let opaque = documented.opaque_or_host issuer u read (host_given u fine) in
    let checked = check_url_accepts p u environment documented opaque fine near in
    (u, simp (validate_remote_url, read, checked))

not_enabled : (c : OidcConfig) → c ≡ no_oidc → enabled c ≡ true → ⊥
unfolding enabled text_eq
not_enabled c absent on = (let off : enabled c ≡ false = simp (enabled, absent) in cc)

accepts :
    (p : Platform) (env : Assoc Text) (environment : Text) (c : OidcConfig)
    → IsDocumented p
    → IsOidcLoaded p env environment c
    → c.allowed_algorithms ≢ []
    → IsDistinct c.allowed_algorithms
    → (u : Url) × (validate_oidc_config p c ≡ ok u)
unfolding validate_oidc_config enabled wrap_error
accepts p env environment c documented
      (issued, given, audience, issuer, skew, timeout, algorithms, _, claim, good, _) some_algorithm
      distinct =
    let (u, valid) = check_issuer_lem p environment c.issuer documented issuer in
    let on : text_eq c.issuer [] ≡ false = text_eq_nil c.issuer issued in
    let trimmed : trim_space c.audience ≡ c.audience =
      rw (audience) (trim_space_twice (getenv env (str "OIDC_AUDIENCE"))) in
    let heard : text_eq c.audience [] ≡ false = text_eq_nil c.audience given in
    let claimed : trim_space c.tenant_claim ≡ c.tenant_claim =
      rw (claim)
        (trim_space_twice (env_or_default env (str "OIDC_TENANT_CLAIM") (str "tenant_id"))) in
    let positive =
      parse_positive_duration_test p env (str "OIDC_HTTP_TIMEOUT") (str "10s") timeout in
    let near = load_clock_skew_test p env skew in
    let counted = length_given c.allowed_algorithms some_algorithm in
    let signing =
      check_signing_lem [] c.allowed_algorithms algorithms distinct (λ a among. nothing_seen a) in
    (
      u,
      simp (
        validate_oidc_config,
        enabled,
        on,
        wrap_error,
        valid,
        trimmed,
        heard,
        text_eq_refl c.audience,
        claimed,
        good,
        positive,
        near,
        counted,
        signing,
      ),
    )

-- If the environment gives an issuer and an audience, loading succeeds, and the algorithms that it
-- read are one or more and different from each other, the verifier's own validation accepts the
-- configuration: loading leaves only these two conditions to it. For a platform that is as
-- documented.
pub load-validate_oidc_config :
    (p : Platform) (env : Assoc Text) (c : Config)
    → IsDocumented p
    → load p env ≡ ok c
    → enabled c.oidc ≡ true
    → c.oidc.allowed_algorithms ≢ []
    → IsDistinct c.oidc.allowed_algorithms
    → (u : Url) × (validate_oidc_config p c.oidc ≡ ok u)
load-validate_oidc_config p env c documented h on given distinct =
    let (_, _, _, _, _, _, _, _, oidc, _) = load-IsLoaded p env c h in
    elim (load_oidc_config-IsOidcLoaded p env c.environment c.oidc oidc) [
      | inl absent ↦ absurd (not_enabled c.oidc absent on)
      | inr loaded ↦ accepts p env c.environment c.oidc documented loaded given distinct
    ]
