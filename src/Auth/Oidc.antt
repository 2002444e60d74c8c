-- ===== src/Auth/Oidc.antt =====
-- internal/auth/oidc.go: the URLs that the verifier may use, and the configuration that it accepts.
pub mod Redirects
pub mod Address
pub mod Signing
pub mod Accepted
pub mod New
pub mod Claims
pub mod Verified
pub mod Window
use a2a_red_panda_server_con.Prelude.{
  ok, ◌>>◌, ◌>>=◌, Text, text_eq, str, contains, ℕ, Bool, true, false, ◌&&◌, ◌||◌, not, List, [],
  ◌∷◌, leb, ◌==◌, if◌then◌else◌, err, pos, length, Result, refuse_if, or_fail,
}
use a2a_red_panda_server_con.Config.{
  OidcConfig, enabled, allowed_oidc_algorithm, is_loopback_host, has_blank, has_user,
}
use a2a_red_panda_server_con.Config.Oidc.{max_clock_skew}
use a2a_red_panda_server_con.Platform.{Platform, Url, int_lt}
use a2a_red_panda_server_con.Strings.{trim_space}

pub data UrlError : Type 0 where
  not_absolute has_query not_https unknown_scheme : UrlError

pub data OidcError : Type 0 where
  disabled bad_audience bad_claim bad_timeout bad_skew no_algorithm client_required : OidcError
  transport_unsupported discovery_failed metadata_invalid jwks_origin : OidcError
  bad_issuer_url bad_jwks_url bad_redirect_url : UrlError → OidcError
  unsafe_algorithm : Text → OidcError
  too_many_redirects redirect_origin : OidcError

-- The switch on the scheme.
unfoldable pub check_scheme :
    Platform → (allow_loopback_http : Bool) → Url → Result UrlError (Unit {0})
check_scheme p allow_loopback_http url =
    if text_eq (p.to_lower url.scheme) (str "https")
    then ok tt
    else if text_eq (p.to_lower url.scheme) (str "http")
    then refuse_if (not allow_loopback_http || not (is_loopback_host p url.hostname)) not_https
    else err unknown_scheme

-- What is tested of a URL that was parsed.
unfoldable pub check_url :
    Platform → (allow_loopback_http allow_query : Bool) → Url → Result UrlError (Unit {0})
check_url p allow_loopback_http allow_query url = do
  refuse_if
      (text_eq url.host []
        || has_user url
        || not (text_eq url.fragment [])
        || not (text_eq url.opaque []))
      not_absolute
  refuse_if (not allow_query && not (text_eq url.raw_query [])) has_query
  check_scheme p allow_loopback_http url

unfoldable pub validate_remote_url :
    Platform → (raw : Text) → (allow_loopback_http allow_query : Bool) → Result UrlError Url
validate_remote_url p raw allow_loopback_http allow_query = do
  url ← or_fail (p.parse_request_uri raw) not_absolute
  check_url p allow_loopback_http allow_query url
  ok url

-- An error with what it was the error of.
unfoldable pub wrap_error : {E F A : Type 0} → (E → F) → Result E A → Result F A
wrap_error f (ok a) = ok a
wrap_error f (err e) = err (f e)

-- The loop over the algorithms, with those seen so far.
unfoldable pub check_signing : (seen algorithms : List Text) → Result OidcError (Unit {0})
check_signing seen [] = ok tt
check_signing seen (algorithm ∷ rest) = do
  refuse_if (not (allowed_oidc_algorithm algorithm) || contains seen algorithm)
      (unsafe_algorithm algorithm)
  check_signing (algorithm ∷ seen) rest

unfoldable pub validate_oidc_config : Platform → OidcConfig → Result OidcError Url
validate_oidc_config p c = do
  refuse_if (not (enabled c)) disabled
  url ← wrap_error bad_issuer_url (validate_remote_url p c.issuer true false)
  refuse_if (text_eq (trim_space c.audience) [] || not (text_eq c.audience (trim_space c.audience)))
      bad_audience
  refuse_if (text_eq (trim_space c.tenant_claim) [] || has_blank c.tenant_claim) bad_claim
  refuse_if (not (int_lt (pos 0) c.http_timeout)) bad_timeout
  refuse_if (int_lt c.clock_skew (pos 0) || int_lt max_clock_skew c.clock_skew) bad_skew
  refuse_if (length c.allowed_algorithms == 0) no_algorithm
  check_signing [] c.allowed_algorithms
  ok url

unfoldable pub effective_port : Platform → Url → Text
effective_port p url =
    if not (text_eq url.port [])
    then url.port
    else if text_eq (p.to_lower url.scheme) (str "http")
    then str "80"
    else if text_eq (p.to_lower url.scheme) (str "https")
    then str "443"
    else []

unfoldable pub same_origin : Platform → (expected candidate : Url) → Bool
same_origin p expected candidate =
    text_eq (p.fold expected.scheme) (p.fold candidate.scheme)
    && text_eq (p.fold expected.hostname) (p.fold candidate.hostname)
    && text_eq (effective_port p expected) (effective_port p candidate)

-- `CheckRedirect`: `target` is the text of the URL that is to be followed, and `via` the number of
-- the requests made already.
unfoldable pub redirect_policy :
    Platform → (issuer : Url) → (target : Text) (via : ℕ) → Result OidcError (Unit {0})
redirect_policy p issuer target via = do
  refuse_if (leb 5 via) too_many_redirects
  candidate ←
      wrap_error bad_redirect_url
        (validate_remote_url p target (text_eq issuer.scheme (str "http")) true)
  refuse_if (not (same_origin p issuer candidate)) redirect_origin
