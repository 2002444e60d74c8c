-- ===== src/Tests/OidcTests.antt =====
-- The theorems on the OIDC verifier at concrete configurations, tokens and addresses.
use a2a_red_panda_server_con.Prelude.{
  text_eq, str, contains, Assoc, lookup, ℕ, ◌≤◌, ◌<◌, ◌≡◌, refl, ◌↔◌, ◌⊎◌, inl, inr, true, false,
  none, some, [], ◌∷◌, ◌==◌, if◌then◌else◌, ok, length, All, arith,
}
use a2a_red_panda_server_con.Auth.Bearer.{
  bearer_value, bearer_token, b64_byte, credential_loop, valid_bearer_credential, skip_spaces,
}
use a2a_red_panda_server_con.Auth.Middleware.{
  unauthenticated, permission_denied, has_scopes, strip_credentials, middleware,
}
use a2a_red_panda_server_con.Auth.Oidc.{
  check_scheme, check_url, validate_remote_url, wrap_error, check_signing, validate_oidc_config,
  effective_port, same_origin, redirect_policy,
}
use a2a_red_panda_server_con.Auth.Oidc.Accepted.{load-validate_oidc_config}
use a2a_red_panda_server_con.Auth.Oidc.Address.{
  v4, v6, unmap, is_unspecified, is_loopback, is_multicast, is_link_local_unicast,
  is_link_local_multicast, is_private, is_global_unicast, in_prefixes, public_oidc_address,
  dial_public, bad_destination, unresolved, connected, Network, dial_loop,
}
use a2a_red_panda_server_con.Auth.Oidc.Address.Dial.{IsDialed, dial_public-IsDialed}
use a2a_red_panda_server_con.Auth.Oidc.Address.Ranges.{refused_ranges, public_oidc_address_ranges}
use a2a_red_panda_server_con.Auth.Oidc.Claims.{
  string, number, Json, scalar, list, seconds, Numbers, to_string, to_strings, to_number,
  string_claim, number_claim, strings_claim, fields_loop, fields, required_string_claim,
  numeric_date, optional_numeric_date, required_numeric_date, claim_scopes, token_scopes,
  OidcVerifier, too_early, verify,
}
use a2a_red_panda_server_con.Auth.Oidc.New.{
  http_transport, secure_client, Provider, Discovery, new_oidc_verifier,
}
use a2a_red_panda_server_con.Auth.Oidc.New.Built.{IsBuilt, new_oidc_verifier-IsBuilt}
use a2a_red_panda_server_con.Auth.Oidc.Redirects.{
  IsIssuerUrl, IsFollowed, first_request, redirected, IsFollowed-IsIssuerUrl,
}
use a2a_red_panda_server_con.Auth.Oidc.Signing.{IsDistinct}
use a2a_red_panda_server_con.Auth.Oidc.Window.{middleware_verified}
use a2a_red_panda_server_con.Auth.Scope.{Authenticator}
use a2a_red_panda_server_con.Config.{enabled, allowed_oidc_algorithm, has_blank}
use a2a_red_panda_server_con.Http.{header_values, no_body, Request, forward, reply, canonical_key}
use a2a_red_panda_server_con.Platform.{Url, int_lt, digits_value, parse_digits}
use a2a_red_panda_server_con.Strings.{strip_prefix, strip_any, trim_space, cut, lower, equal_fold}
use a2a_red_panda_server_con.Tests.ConfigTests.{
  plain_url, platform, platform-IsDocumented, environment, oidc, config, loaded,
}

IsDistinct-algorithms : IsDistinct (str "RS256" ∷ str "ES256" ∷ [])
unfolding str
IsDistinct-algorithms =
    (λ h. elim h [ inl e ↦ ground arith | inr n ↦ elim n [ ] ], (λ h. elim h [ ], tt))

load-validate_oidc_config_example : (u : Url) × (validate_oidc_config platform config.oidc ≡ ok u)
unfolding enabled text_eq str
load-validate_oidc_config_example =
    load-validate_oidc_config platform environment config platform-IsDocumented loaded refl
      (λ e. cc) IsDistinct-algorithms

abbrev issuer_url : Url
issuer_url = plain_url (str "https") (str "issuer")

followed : IsFollowed platform issuer_url (str "https://issuer/b" ∷ str "https://ISSUER/a" ∷ [])
unfolding redirect_policy validate_remote_url check_url check_scheme wrap_error same_origin
    effective_port text_eq str strip_prefix cut lower
followed =
    redirected (redirected first_request (str "https://ISSUER/a") refl) (str "https://issuer/b")
      refl

IsFollowed-IsIssuerUrl_example :
    (length (str "https://issuer/b" ∷ str "https://ISSUER/a" ∷ []) ≤ 4)
    × All (IsIssuerUrl platform issuer_url) (str "https://issuer/b" ∷ str "https://ISSUER/a" ∷ [])
IsFollowed-IsIssuerUrl_example = IsFollowed-IsIssuerUrl platform issuer_url followed

abbrev pub discovered : Provider
discovered = record {
  jwks_uri = some (str "https://issuer/keys");
  verify_claims = λ audience algorithms raw. none;
}

abbrev pub discover : Discovery
discover client redirects issuer = some discovered

abbrev pub built : OidcVerifier
built = record {
  verify_claims = λ raw. none;
  issuer = str "https://issuer";
  tenant_claim = str "tenant_id";
  clock_skew = 60000000000;
}

building : new_oidc_verifier platform discover oidc (some http_transport) ≡ ok built
unfolding new_oidc_verifier secure_client validate_oidc_config enabled validate_remote_url check_url
    check_scheme check_signing allowed_oidc_algorithm has_blank int_lt wrap_error contains
    trim_space same_origin effective_port text_eq str strip_prefix cut lower
building = refl

new_oidc_verifier-IsBuilt_example : IsBuilt platform discover oidc built
new_oidc_verifier-IsBuilt_example =
    new_oidc_verifier-IsBuilt platform discover oidc (some http_transport) built building

public_oidc_address_ranges_example :
    (public_oidc_address (v4 0x08080808) ≡ true)
    ↔ All (λ r. (0x08080808 < r.0) ⊎ (r.1 < 0x08080808)) refused_ranges
public_oidc_address_ranges_example = public_oidc_address_ranges 0x08080808

-- One host is known, and whoever dials 8.8.8.8 is connected.
abbrev network : Network ℕ ℕ
network = record {
  split_host_port = λ destination. cut b':' destination;
  lookup_net_ip = λ host.
      if text_eq host (str "issuer")
      then inr (v4 0x7f000001 ∷ v4 0x01010101 ∷ v4 0x08080808 ∷ [])
      else inl 404;
  dial = λ candidate port. elim candidate [
    | v4 n ↦ if n == 0x08080808 then inr 1 else inl 0
    | v6 zoned n ↦ inl 0
  ];
}

dial_public-IsDialed_example :
    IsDialed network (str "issuer:443") (dial_public network (str "issuer:443"))
dial_public-IsDialed_example = dial_public-IsDialed network (str "issuer:443")

destinations :
    (dial_public network (str "issuer:443") ≡ connected 1)
    × (dial_public network (str "other:443") ≡ unresolved 404)
    × (dial_public network (str "issuer") ≡ bad_destination)
unfolding dial_public public_oidc_address unmap is_global_unicast is_private is_loopback
    is_link_local_unicast is_link_local_multicast is_multicast is_unspecified in_prefixes cut
    text_eq str dial_loop
destinations = (refl, refl, refl)

-- Addresses of the special-use networks 240.0.0.0/4, 0.0.0.0/8 and 64:ff9b::/96 are taken as
-- public.
special_use_public :
    (public_oidc_address (v4 0xf0000001) ≡ true)
    × (public_oidc_address (v4 0x00000001) ≡ true)
    × (public_oidc_address (v6 false 0x64ff9b00000000000000000a000001) ≡ true)
unfolding public_oidc_address unmap is_global_unicast is_private is_loopback is_link_local_unicast
    is_link_local_multicast is_multicast is_unspecified in_prefixes
special_use_public = (refl, refl, refl)

abbrev pub numbers : Numbers
numbers = record {
  is_number = λ s. true;
  float64 = λ s. elim (parse_digits s) [ none ↦ none | some n ↦ some (seconds n 0) ];
}

abbrev claims : Assoc Json
claims =
    (str "sub", scalar (string (str "alice")))
    ∷ (str "tenant_id", scalar (string (str "acme")))
    ∷ (str "exp", scalar (number (str "100")))
    ∷ (str "scope", scalar (string (str "a2a profile")))
    ∷ (str "scp", list (string (str "tasks") ∷ []))
    ∷ []

abbrev token_verifier : OidcVerifier
token_verifier = record {
  verify_claims = λ raw. if text_eq raw (str "abc") then some claims else none;
  issuer = str "https://issuer";
  tenant_claim = str "tenant_id";
  clock_skew = 60000000000;
}

-- Half a minute behind the token's end, within the skew.
abbrev late : ℕ
late = 130000000000

verified_late :
    verify numbers token_verifier late (str "abc")
    ≡ some (record {
      issuer = str "https://issuer";
      subject = str "alice";
      tenant = str "acme";
      scopes = str "a2a" ∷ str "profile" ∷ str "tasks" ∷ [];
    })
unfolding verify required_string_claim required_numeric_date optional_numeric_date numeric_date
    number_claim to_number string_claim to_string token_scopes claim_scopes strings_claim to_strings
    fields fields_loop too_early lookup text_eq str trim_space strip_any strip_prefix parse_digits
    digits_value
verified_late = refl

refused_later : verify numbers token_verifier 160000000000 (str "abc") ≡ none
unfolding verify required_string_claim required_numeric_date optional_numeric_date numeric_date
    number_claim to_number string_claim to_string token_scopes claim_scopes strings_claim to_strings
    fields fields_loop too_early lookup text_eq str trim_space strip_any strip_prefix parse_digits
    digits_value
refused_later = refl

abbrev gate : Authenticator
gate = record {
  verifier = λ raw. verify numbers token_verifier late raw;
  issuer = str "https://issuer";
  required_scopes = str "a2a" ∷ [];
}

abbrev presented : Request
presented = record {
  header = (str "Authorization", str "Bearer abc" ∷ []) ∷ [];
  query = [];
  body = no_body;
  content_length = none;
  identity = none;
}

token_presented :
    bearer_token (header_values (str "Authorization") presented.header) ≡ some (str "abc")
unfolding bearer_token bearer_value skip_spaces valid_bearer_credential credential_loop b64_byte
    header_values canonical_key cut equal_fold lower text_eq str lookup
token_presented = refl

middleware_verified_example :
    middleware gate presented ≡ (elim (verify numbers token_verifier late (str "abc")) [
      | none ↦ reply unauthenticated
      | some i ↦
          if has_scopes i.scopes (str "a2a" ∷ [])
          then forward (strip_credentials i presented)
          else reply (permission_denied gate)
    ])
middleware_verified_example =
    middleware_verified numbers token_verifier late gate presented (str "abc") (λ raw. refl) refl
      token_presented
