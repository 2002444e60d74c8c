-- ===== src/Config/Oidc.antt =====
-- internal/config/config.go: `loadOIDCConfig`.
use a2a_red_panda_server_con.Prelude.{
  ok, ◌>>◌, ◌>>=◌, Text, text_eq, str, Assoc, ◌&&◌, ◌||◌, not, List, [], ◌∷◌, ◌==◌, if◌then◌else◌,
  pos, length, Result, refuse_if, or_fail, ℤ,
}
use a2a_red_panda_server_con.Config.{
  OidcConfig, no_oidc, LoadError, oidc_pair, bad_issuer, issuer_scheme, issuer_host, bad_clock_skew,
  no_scopes, bad_tenant_claim, oidc_key_alone, bad_algorithm, getenv, env_or_default,
  allowed_oidc_algorithm, is_loopback_host, has_blank, split_csv, parse_positive_duration, is_local,
  is_http, has_user,
}
use a2a_red_panda_server_con.Platform.{Platform, int_lt}
use a2a_red_panda_server_con.Strings.{trim_space}

-- The keys that need an issuer and an audience.
abbrev pub dependent_keys : List Text
dependent_keys =
    str "OIDC_TENANT_CLAIM"
    ∷ str "OIDC_REQUIRED_SCOPES"
    ∷ str "OIDC_ALLOWED_ALGORITHMS"
    ∷ str "OIDC_CLOCK_SKEW"
    ∷ str "OIDC_HTTP_TIMEOUT"
    ∷ []

unfoldable pub check_unset : Assoc Text → List Text → Result LoadError (Unit {0})
check_unset env [] = ok tt
check_unset env (key ∷ keys) = do
  refuse_if (not (text_eq (trim_space (getenv env key)) [])) (oidc_key_alone key)
  check_unset env keys

unfoldable pub check_algorithms : List Text → Result LoadError (Unit {0})
check_algorithms [] = ok tt
check_algorithms (algorithm ∷ rest) = do
  refuse_if (not (allowed_oidc_algorithm algorithm)) (bad_algorithm algorithm)
  check_algorithms rest

unfoldable pub check_issuer : Platform → (environment issuer : Text) → Result LoadError (Unit {0})
check_issuer p environment issuer = do
  url ← or_fail (p.parse_request_uri issuer) bad_issuer
  refuse_if
      (text_eq url.host []
        || not (is_http url)
        || has_user url
        || not (text_eq url.raw_query [])
        || not (text_eq url.fragment []))
      bad_issuer
  refuse_if (not (text_eq url.scheme (str "https")) && not (is_local environment)) issuer_scheme
  refuse_if (not (text_eq url.scheme (str "https")) && not (is_loopback_host p url.hostname))
      issuer_host

-- Five minutes, in nanoseconds.
abbrev pub max_clock_skew : ℤ
max_clock_skew = pos 300000000000

unfoldable pub load_clock_skew : Platform → Assoc Text → Result LoadError ℤ
load_clock_skew p env = do
  value ←
      or_fail (p.parse_duration (env_or_default env (str "OIDC_CLOCK_SKEW") (str "1m")))
        bad_clock_skew
  refuse_if (int_lt value (pos 0) || int_lt max_clock_skew value) bad_clock_skew
  ok value

-- What follows the tests on whether the issuer and the audience are given.
unfoldable pub load_oidc_values :
    Platform → Assoc Text → (environment issuer audience : Text) → Result LoadError OidcConfig
load_oidc_values p env environment issuer audience =
    let algorithms = split_csv (env_or_default env (str "OIDC_ALLOWED_ALGORITHMS") (str "RS256")) in
    let scopes = split_csv (env_or_default env (str "OIDC_REQUIRED_SCOPES") (str "a2a")) in
    let claim = trim_space (env_or_default env (str "OIDC_TENANT_CLAIM") (str "tenant_id")) in
    do
      check_issuer p environment issuer
      skew ← load_clock_skew p env
      timeout ← parse_positive_duration p env (str "OIDC_HTTP_TIMEOUT") (str "10s")
      check_algorithms algorithms
      refuse_if (length scopes == 0) no_scopes
      refuse_if (text_eq claim [] || has_blank claim) bad_tenant_claim
      ok (record {
        issuer = issuer;
        audience = audience;
        tenant_claim = claim;
        allowed_algorithms = algorithms;
        required_scopes = scopes;
        clock_skew = skew;
        http_timeout = timeout;
        allow_private_ips = is_local environment;
      })

unfoldable pub load_oidc_config :
    Platform → Assoc Text → (environment : Text) → Result LoadError OidcConfig
load_oidc_config p env environment =
    let issuer = trim_space (getenv env (str "OIDC_ISSUER")) in
    let audience = trim_space (getenv env (str "OIDC_AUDIENCE")) in
    if text_eq issuer [] && text_eq audience []
    then check_unset env dependent_keys >> ok no_oidc
    else (refuse_if (text_eq issuer [] || text_eq audience []) oidc_pair
        >> load_oidc_values p env environment issuer audience)
