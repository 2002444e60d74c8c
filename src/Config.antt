-- ===== src/Config.antt =====
-- internal/config/config.go: the configuration, the errors of loading it, and the helpers that read
-- the process environment. `none` of the `error` results stands as the value of `Result`.
pub mod Oidc
pub mod Database
pub mod Load
pub mod Parts
pub mod Loaded
pub mod Bounds
use a2a_red_panda_server_con.Prelude.{
  Text, ℕ, Bool, true, false, ◌||◌, not, Option, none, some, List, [], ◌∷◌, length, str, text_eq,
  Assoc, lookup, Result, err, ok, ◌>>◌, ◌>>=◌, refuse_if, or_fail, ◌==◌, if◌then◌else◌, ℤ, pos,
  negsuc,
}
use a2a_red_panda_server_con.Platform.{Platform, int_lt, itoa, parse_int, Url}
use a2a_red_panda_server_con.Strings.{trim_space, split}

pub record OidcConfig : Type 0 where
  pub issuer : Text
  pub audience : Text
  pub tenant_claim : Text
  pub allowed_algorithms : List Text
  pub required_scopes : List Text
  pub clock_skew : ℤ
  pub http_timeout : ℤ
  pub allow_private_ips : Bool

pub record DatabaseConfig : Type 0 where
  pub url : Text
  pub password_file : Text
  pub max_connections : ℤ
  pub min_connections : ℤ
  pub max_connection_life : ℤ
  pub max_connection_idle : ℤ
  pub health_check_period : ℤ

pub record Config : Type 0 where
  pub environment : Text
  pub port : ℤ
  pub public_base_url : Text
  pub agent_card_path : Text
  pub shutdown_timeout : ℤ
  pub keep_alive : ℤ
  pub agent_inactivity : ℤ
  pub http_read_timeout : ℤ
  pub max_request_bytes : ℤ
  pub oidc : OidcConfig
  pub database : DatabaseConfig

abbrev pub no_oidc : OidcConfig
no_oidc = record {
  issuer = [];
  audience = [];
  tenant_claim = [];
  allowed_algorithms = [];
  required_scopes = [];
  clock_skew = pos 0;
  http_timeout = pos 0;
  allow_private_ips = false;
}

abbrev pub no_database : DatabaseConfig
no_database = record {
  url = [];
  password_file = [];
  max_connections = pos 0;
  min_connections = pos 0;
  max_connection_life = pos 0;
  max_connection_idle = pos 0;
  health_check_period = pos 0;
}

-- One for each error that loading answers.
pub data LoadError : Type 0 where
  bad_environment bad_port bad_base_url base_url_parts base_url_scheme : LoadError
  bad_max_bytes oidc_pair bad_issuer issuer_scheme issuer_host bad_clock_skew : LoadError
  no_scopes bad_tenant_claim password_file_alone bad_database_url : LoadError
  password_in_url credentials_in_url relative_password_file : LoadError
  oidc_key_alone : (key : Text) → LoadError
  bad_algorithm : (algorithm : Text) → LoadError
  not_positive : (key : Text) → LoadError
  out_of_range : (key : Text) (min max : ℤ) → LoadError

-- The process environment: `os.Getenv` answers the empty string for a variable that is not set.
unfoldable pub getenv : Assoc Text → Text → Text
getenv env key = elim (lookup key env) [ some value ↦ value | none ↦ [] ]

unfoldable pub env_or_default : Assoc Text → (key fallback : Text) → Text
env_or_default env key fallback = elim (lookup key env) [
  | some value ↦ if text_eq value [] then fallback else value
  | none ↦ fallback
]

-- `OIDCConfig.Enabled`
unfoldable pub enabled : OidcConfig → Bool
enabled c = not (text_eq c.issuer [])

unfoldable pub allowed_oidc_algorithm : Text → Bool
allowed_oidc_algorithm algorithm =
    text_eq algorithm (str "RS256")
    || text_eq algorithm (str "RS384")
    || text_eq algorithm (str "RS512")
    || text_eq algorithm (str "PS256")
    || text_eq algorithm (str "PS384")
    || text_eq algorithm (str "PS512")
    || text_eq algorithm (str "ES256")
    || text_eq algorithm (str "ES384")
    || text_eq algorithm (str "ES512")

unfoldable pub is_loopback_host : Platform → Text → Bool
is_loopback_host p host = text_eq (p.fold host) (p.fold (str "localhost")) || p.is_loopback_ip host

-- `strings.ContainsAny(s, " \t\r\n")`
unfoldable pub has_blank : Text → Bool
has_blank [] = false
has_blank (c ∷ s) = c == 32 || c == 9 || c == 13 || c == 10 || has_blank s

-- The loop of `splitCSV`.
unfoldable pub trimmed_items : List Text → List Text
trimmed_items [] = []
trimmed_items (x ∷ xs) =
    let rest = trimmed_items xs in
    let item = trim_space x in if text_eq item [] then rest else item ∷ rest

unfoldable pub split_csv : Text → List Text
split_csv value = trimmed_items (split b',' value)

unfoldable pub parse_int32 : Assoc Text → (key : Text) (fallback min max : ℤ) → Result LoadError ℤ
parse_int32 env key fallback min max = do
  value ← or_fail (parse_int 32 (env_or_default env key (itoa fallback))) (out_of_range key min max)
  refuse_if (int_lt value min || int_lt max value) (out_of_range key min max)
  ok value

unfoldable pub parse_positive_duration :
    Platform → Assoc Text → (key fallback : Text) → Result LoadError ℤ
parse_positive_duration p env key fallback = do
  value ← or_fail (p.parse_duration (env_or_default env key fallback)) (not_positive key)
  refuse_if (not (int_lt (pos 0) value)) (not_positive key)
  ok value

unfoldable pub is_local : Text → Bool
is_local environment = text_eq environment (str "development") || text_eq environment (str "test")

unfoldable pub is_deployed : Text → Bool
is_deployed environment =
    text_eq environment (str "staging") || text_eq environment (str "production")

unfoldable pub is_http : Url → Bool
is_http u = text_eq u.scheme (str "http") || text_eq u.scheme (str "https")

abbrev pub has_user : Url → Bool
has_user u = elim u.user [ none ↦ false | some password ↦ true ]
