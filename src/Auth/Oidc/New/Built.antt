-- ===== src/Auth/Oidc/New/Built.antt =====
-- What building a verifier has established.
use a2a_red_panda_server_con.Prelude.{
  Text, ◌≡◌, not, some, ok, text_eq, str, sym, ap, true, Option, arith, not-false, refuse_if,
  or_fail, >>=-eq-ok, refuse_if-eq-ok, or_fail-eq-ok, ok-injective, ◌≤◌, refl, ◌∙◌, subst, false,
  ◌||◌, [], pos, ℤ,
}
use a2a_red_panda_server_con.Auth.Oidc.{
  validate_oidc_config, redirect_policy, client_required, discovery_failed, metadata_invalid,
  jwks_origin, bad_jwks_url, validate_remote_url, wrap_error, same_origin, disabled, bad_audience,
  bad_claim, bad_timeout, bad_skew, bad_issuer_url,
}
use a2a_red_panda_server_con.Auth.Oidc.Claims.{OidcVerifier}
use a2a_red_panda_server_con.Auth.Oidc.New.{
  Transport, Client, secure_client, Provider, Discovery, default_transport, http_transport,
  foreign_transport, new_oidc_verifier, magnitude,
}
use a2a_red_panda_server_con.Auth.Oidc.Redirects.{
  IsIssuerUrl, same_origin-IsSameOrigin, validate_remote_url-IsSafeUrl, wrap_error-eq-ok,
}
use a2a_red_panda_server_con.Config.{OidcConfig, enabled, has_blank}
use a2a_red_panda_server_con.Config.Oidc.{max_clock_skew}
use a2a_red_panda_server_con.Platform.{Url, Platform, int_lt}
use a2a_red_panda_server_con.Platform.Ranges.{IsBetween, int_lt-IsBetween}
use a2a_red_panda_server_con.Strings.{trim_space}

-- The verifier has the configuration's issuer, tenant claim and clock skew, which is at most five
-- minutes, and checks tokens for its audience and algorithms, and its keys come from a safe URL of
-- the issuer's origin, which a client with the configured timeout found; its dialing is protected
-- unless private addresses are allowed.
pub record IsBuilt (p : Platform) (discover : Discovery) (c : OidcConfig) (v : OidcVerifier)
    : Type 0 where
  pub issuer : Url
  pub client : Client
  pub provider : Provider
  pub jwks : Text
  pub valid : validate_oidc_config p c ≡ ok issuer
  pub protection : client.protected ≡ not c.allow_private_ips
  pub limited : client.timeout ≡ c.http_timeout
  pub discovered : discover client (redirect_policy p issuer) c.issuer ≡ some provider
  pub named : provider.jwks_uri ≡ some jwks
  pub safe : IsIssuerUrl p issuer jwks
  pub checks : v.verify_claims ≡ provider.verify_claims c.audience c.allowed_algorithms
  pub same_issuer : v.issuer ≡ c.issuer
  pub same_claim : v.tenant_claim ≡ c.tenant_claim
  pub same_skew : c.clock_skew ≡ pos v.clock_skew
  pub short_skew : v.clock_skew ≤ 300000000000

valid_skew :
    (p : Platform) (c : OidcConfig) (u : Url)
    → validate_oidc_config p c ≡ ok u
    → IsBetween 0 300000000000 c.clock_skew
unfolding validate_oidc_config
valid_skew p c u h =
    let (_, _, h) = >>=-eq-ok (refuse_if (not (enabled c)) disabled) _ h in
    let (_, _, h) =
      >>=-eq-ok (wrap_error bad_issuer_url (validate_remote_url p c.issuer true false)) _ h in
    let (_, _, h) =
      >>=-eq-ok
        (refuse_if
          (text_eq (trim_space c.audience) [] || not (text_eq c.audience (trim_space c.audience)))
          bad_audience)
        _ h in
    let (_, _, h) =
      >>=-eq-ok
        (refuse_if (text_eq (trim_space c.tenant_claim) [] || has_blank c.tenant_claim) bad_claim) _
        h in
    let (_, _, h) = >>=-eq-ok (refuse_if (not (int_lt (pos 0) c.http_timeout)) bad_timeout) _ h in
    let (_, near, h) =
      >>=-eq-ok
        (refuse_if (int_lt c.clock_skew (pos 0) || int_lt max_clock_skew c.clock_skew) bad_skew) _
        h in
    int_lt-IsBetween c.clock_skew 0 300000000000 (
      refuse_if-eq-ok (int_lt c.clock_skew (pos 0) || int_lt max_clock_skew c.clock_skew) bad_skew
        near)

magnitude_lem : (skew : ℤ) → IsBetween 0 300000000000 skew → skew ≡ pos (magnitude skew)
magnitude_lem skew (n, same, _, _) = rw same refl

magnitude_bound : (skew : ℤ) → IsBetween 0 300000000000 skew → magnitude skew ≤ 300000000000
magnitude_bound skew (n, same, _, short) = rw same short

secure_client_lem :
    (t : Transport) (c : OidcConfig) (client : Client)
    → secure_client t c ≡ ok client
    → (client.protected ≡ not c.allow_private_ips) × (client.timeout ≡ c.http_timeout)
unfolding secure_client
secure_client_lem default_transport c client h = ground arith
secure_client_lem http_transport c client h = ground arith
secure_client_lem foreign_transport c client h = ground arith

-- A verifier is built only from a valid configuration, whose issuer, tenant claim and clock skew,
-- at most five minutes, it has, and for whose audience and algorithms it checks tokens; its
-- provider was found by a client that follows redirects only as the policy of the issuer says, has
-- the configured timeout, and whose dialing is protected unless private addresses are allowed; and
-- the keys come from a safe URL of the issuer's origin.
pub new_oidc_verifier-IsBuilt :
    (p : Platform) (discover : Discovery) (c : OidcConfig) (source : Option Transport)
    (v : OidcVerifier)
    → new_oidc_verifier p discover c source ≡ ok v
    → IsBuilt p discover c v
unfolding new_oidc_verifier
new_oidc_verifier-IsBuilt p discover c source v h =
    let (issuer, valid, h) = >>=-eq-ok (validate_oidc_config p c) _ h in
    let (transport, _, h) = >>=-eq-ok (or_fail source client_required) _ h in
    let (client, secure, h) = >>=-eq-ok (secure_client transport c) _ h in
    let (provider, found, h) =
      >>=-eq-ok (or_fail (discover client (redirect_policy p issuer) c.issuer) discovery_failed) _
        h in
    let (raw, read, h) = >>=-eq-ok (or_fail provider.jwks_uri metadata_invalid) _ h in
    let allow = text_eq issuer.scheme (str "http") in
    let (jwks, checked, h) =
      >>=-eq-ok (wrap_error bad_jwks_url (validate_remote_url p raw allow true)) _ h in
    let (_, origin, h) = >>=-eq-ok (refuse_if (not (same_origin p issuer jwks)) jwks_origin) _ h in
    let (protection, limited) = secure_client_lem transport c client secure in
    let (parsed, safe) =
      validate_remote_url-IsSafeUrl p raw allow true jwks
        (wrap_error-eq-ok bad_jwks_url (validate_remote_url p raw allow true) checked) in
    let near : same_origin p issuer jwks ≡ true =
      not-false (same_origin p issuer jwks)
        (refuse_if-eq-ok (not (same_origin p issuer jwks)) jwks_origin origin) in
    let same = ok-injective h in
    let skew : magnitude c.clock_skew ≡ v.clock_skew = ap (λ v. v.clock_skew) same in
    let limits = valid_skew p c issuer valid in
    record {
      issuer = issuer;
      client = client;
      provider = provider;
      jwks = raw;
      valid = valid;
      protection = protection;
      limited = limited;
      discovered =
          or_fail-eq-ok (discover client (redirect_policy p issuer) c.issuer) discovery_failed
            found;
      named = or_fail-eq-ok provider.jwks_uri metadata_invalid read;
      safe = (jwks, parsed, safe, (same_origin-IsSameOrigin p issuer jwks).0 near);
      checks = sym (ap (λ v. v.verify_claims) same);
      same_issuer = sym (ap (λ v. v.issuer) same);
      same_claim = sym (ap (λ v. v.tenant_claim) same);
      same_skew = magnitude_lem c.clock_skew limits ∙ ap pos skew;
      short_skew = subst (λ n. n ≤ 300000000000) skew (magnitude_bound c.clock_skew limits);
    }
