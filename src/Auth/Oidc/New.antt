-- ===== src/Auth/Oidc/New.antt =====
-- internal/auth/oidc.go: `newOIDCVerifier` and `secureOIDCHTTPClient`. Discovery and the checks of
-- tokens are those of the package go-oidc.
pub mod Built
use a2a_red_panda_server_con.Prelude.{
  ok, ◌>>◌, ◌>>=◌, Text, text_eq, str, Assoc, ℕ, Bool, true, false, not, Option, List,
  if◌then◌else◌, err, pos, negsuc, Result, refuse_if, or_fail, ℤ,
}
use a2a_red_panda_server_con.Auth.Oidc.{
  OidcError, client_required, transport_unsupported, discovery_failed, metadata_invalid,
  jwks_origin, bad_jwks_url, validate_remote_url, wrap_error, validate_oidc_config, same_origin,
  redirect_policy,
}
use a2a_red_panda_server_con.Auth.Oidc.Claims.{Json, OidcVerifier}
use a2a_red_panda_server_con.Config.{OidcConfig}
use a2a_red_panda_server_con.Platform.{Platform}

-- `http.Client`'s transport: the default one, an `*http.Transport`, or one of another type.
pub data Transport : Type 0 where
  default_transport http_transport foreign_transport : Transport

-- A client that was made secure: whether its dialing is `dialPublicOIDCAddress`, with no proxy.
pub record Client : Type 0 where
  pub timeout : ℤ
  pub protected : Bool

unfoldable pub secure_client : Transport → OidcConfig → Result OidcError Client
secure_client transport c =
    if c.allow_private_ips
    then ok (record { timeout = c.http_timeout; protected = false })
    else elim transport [
      | default_transport ↦ ok (record { timeout = c.http_timeout; protected = true })
      | http_transport ↦ ok (record { timeout = c.http_timeout; protected = true })
      | foreign_transport ↦ err transport_unsupported
    ]

-- What discovery found: the provider's `jwks_uri`, if its metadata could be read, and the check of
-- a token for an audience and signing algorithms.
pub record Provider : Type 0 where
  pub jwks_uri : Option Text
  pub verify_claims : (audience : Text) (algorithms : List Text) → Text → Option (Assoc Json)

-- `oidc.NewProvider`, with the client and its policy of redirects.
abbrev pub Discovery : Type 0
Discovery =
    Client
    → (redirects : Text → ℕ → Result OidcError (Unit {0})) → (issuer : Text) → Option Provider

-- The number of an integer that is not negative.
abbrev pub magnitude : ℤ → ℕ
magnitude (pos n) = n
magnitude (negsuc n) = 0

-- The client is `none` where it is nil. The configuration's skew is not negative by then.
unfoldable pub new_oidc_verifier :
    Platform → Discovery → OidcConfig → Option Transport → Result OidcError OidcVerifier
new_oidc_verifier p discover c source = do
  issuer ← validate_oidc_config p c
  transport ← or_fail source client_required
  client ← secure_client transport c
  provider ← or_fail (discover client (redirect_policy p issuer) c.issuer) discovery_failed
  raw ← or_fail provider.jwks_uri metadata_invalid
  jwks ←
      wrap_error bad_jwks_url (validate_remote_url p raw (text_eq issuer.scheme (str "http")) true)
  refuse_if (not (same_origin p issuer jwks)) jwks_origin
  ok (record {
    verify_claims = provider.verify_claims c.audience c.allowed_algorithms;
    issuer = c.issuer;
    tenant_claim = c.tenant_claim;
    clock_skew = magnitude c.clock_skew;
  })
