-- ===== src/Tests/ServerTests.antt =====
-- The theorems on the server's handlers at concrete requests.
use a2a_red_panda_server_con.Prelude.{
  Text, str, text_eq, ◌≡◌, ◌≢◌, ◌↔◌, refl, none, some, [], ◌∷◌, ◌++◌, false, arith, if◌then◌else◌,
  ◌<◌,
}
use a2a_red_panda_server_con.Auth.Middleware.{strip_credentials}
use a2a_red_panda_server_con.Auth.Middleware.Admission.{IsAuthorized}
use a2a_red_panda_server_con.Auth.Scope.{Authenticator}
use a2a_red_panda_server_con.Http.{Request, stream, forward, canonical_key, header_values, Header}
use a2a_red_panda_server_con.Identity.{Identity}
use a2a_red_panda_server_con.Server.Body.{
  max_int64, limit_request_body, with_body, read_all, read_limit, limit_body, declared_too_large,
}
use a2a_red_panda_server_con.Server.Body.Bounded.{IsWithin, buffered, limit_request_body-eq-forward}
use a2a_red_panda_server_con.Server.Params.{query_values, normalize_service_parameters}
use a2a_red_panda_server_con.Server.Params.Items.{AreValuesItems}
use a2a_red_panda_server_con.Server.Params.Values.{normalize_service_parameters_lem, IsVersion}
use a2a_red_panda_server_con.Server.Pipeline.{protected_handler}
use a2a_red_panda_server_con.Server.Pipeline.Reached.{protected_handler-eq-forward}
use a2a_red_panda_server_con.Tests.Base.{alice}

abbrev version : Text
version = str "A2A-Version"

abbrev extensions : Text
extensions = str "A2A-Extensions"

abbrev posted : Request
posted = record {
  header =
      (str "Authorization", str "Bearer abc" ∷ [])
      ∷ (str "A2a-Version", str "1.0, " ∷ [])
      ∷ (str "A2a-Extensions", str "a , b" ∷ [])
      ∷ [];
  query = (str "A2A-Version", str "1.0" ∷ []) ∷ (str "A2A-Extensions", str "c" ∷ []) ∷ [];
  body = stream (str "{}") false false;
  content_length = none;
  identity = none;
}

abbrev checker : Authenticator
checker = record {
  verifier = λ token. if text_eq token (str "abc") then some alice else none;
  issuer = str "https://issuer";
  required_scopes = str "a2a" ∷ [];
}

small_limit : 10 < max_int64
small_limit = omega arith

limit_request_body-eq-forward_example :
    (limit_request_body 10 posted ≡ forward (with_body (str "{}") posted)) ↔ (
      IsWithin 10 posted.body posted.content_length
      × (with_body (str "{}") posted ≡ buffered posted.body posted))
limit_request_body-eq-forward_example =
    limit_request_body-eq-forward 10 posted (with_body (str "{}") posted) small_limit

-- With the largest limit no byte of the body is read, and the request goes on with an empty one.
body_lost : limit_request_body max_int64 posted ≡ forward (with_body [] posted)
unfolding limit_request_body limit_body read_all read_limit declared_too_large str
body_lost = refl

two_names : canonical_key version ≢ canonical_key extensions
unfolding canonical_key str
two_names = cc

abbrev passed_on : Header
passed_on = (normalize_service_parameters version extensions posted).header

normalize_service_parameters_example :
    IsVersion version posted (header_values version passed_on)
    × AreValuesItems
        (header_values extensions posted.header ++ query_values extensions posted)
        (header_values extensions passed_on)
    × ((j : Text)
        → canonical_key j ≢ canonical_key version
        → canonical_key j ≢ canonical_key extensions
        → header_values j passed_on ≡ header_values j posted.header)
normalize_service_parameters_example =
    normalize_service_parameters_lem version extensions posted two_names

abbrev reached : Request
reached =
    normalize_service_parameters version extensions
      (buffered posted.body (strip_credentials alice posted))

protected_handler-eq-forward_example :
    (protected_handler checker 10 version extensions posted ≡ forward reached) ↔ (
      (identity : Identity) × IsAuthorized checker posted identity
      × IsWithin 10 posted.body posted.content_length
      × (reached
          ≡ normalize_service_parameters version extensions
              (buffered posted.body (strip_credentials identity posted))))
protected_handler-eq-forward_example =
    protected_handler-eq-forward checker 10 version extensions posted reached small_limit
