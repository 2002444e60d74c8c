-- ===== src/Tests/ConfigTests.antt =====
-- The theorems on the configuration and the OIDC verifier, on a platform that reads simple URLs and
-- durations of one unit.
use a2a_red_panda_server_con.Prelude.{
  Text, text_eq, str, Assoc, lookup, ℕ, ◌*◌, ◌≡◌, refl, ◌≢◌, inl, inr, true, false, Option, none,
  some, [], ◌∷◌, ◌++◌, map, Option-cases, ok, pos, ℤ, sym, ap,
}
use a2a_red_panda_server_con.Auth.Oidc.Accepted.{IsDocumented}
use a2a_red_panda_server_con.Config.{
  trimmed_items, OidcConfig, Config, getenv, env_or_default, allowed_oidc_algorithm, has_blank,
  split_csv, parse_int32, parse_positive_duration, is_local, is_deployed, is_http,
}
use a2a_red_panda_server_con.Config.Bounds.{IsBounded, load-IsBounded}
use a2a_red_panda_server_con.Config.Database.{
  has_credential_key, has_password, is_postgres, check_database_url, is_rooted, load_limits,
  load_database_config,
}
use a2a_red_panda_server_con.Config.Load.{
  load_environment, load_port, load_base_url, load_max_bytes, load,
}
use a2a_red_panda_server_con.Config.Oidc.{
  check_algorithms, check_issuer, load_clock_skew, load_oidc_values, load_oidc_config,
}
use a2a_red_panda_server_con.Platform.{
  Url, Platform, int_lt, itoa, digits_value, parse_digits, negative, nonnegative, bind_option,
  parse_int,
}
use a2a_red_panda_server_con.Storage.Migrations.Source.{digits}
use a2a_red_panda_server_con.Strings.{
  strip_prefix, trim_space, cut, split_parts, split, lower, decimal,
}

abbrev split_host : Text → Text × Text
split_host s = elim (cut b'/' s) [ some (host, path) ↦ (host, b'/' ∷ path) | none ↦ (s, []) ]

abbrev pub plain_url : (scheme rest : Text) → Url
plain_url scheme rest = record {
  scheme = scheme;
  opaque = [];
  user = none;
  host = (split_host rest).0;
  hostname = (split_host rest).0;
  port = [];
  path = (split_host rest).1;
  raw_query = [];
  query_keys = [];
  fragment = [];
}

abbrev read_url : (scheme : Text) → Text → Option Url
read_url scheme raw = elim (strip_prefix (scheme ++ str "://") raw) [
  | none ↦ none
  | some rest ↦ some (plain_url scheme rest)
]

abbrev in_units : ℕ → Text × Text → Option ℤ
in_units unit (digits, rest) =
    bind_option (parse_digits digits) λ n. some (pos (n * (unit * 1000000000)))

abbrev read_duration : Text → Option ℤ
read_duration s = elim (cut b's' s) [
  | some parts ↦ in_units 1 parts
  | none ↦ elim (cut b'm' s) [
    | some parts ↦ in_units 60 parts
    | none ↦ elim (cut b'h' s) [ some parts ↦ in_units 3600 parts | none ↦ none ]
  ]
]

abbrev pub platform : Platform
platform = record {
  parse_request_uri = read_url (str "https");
  parse_url = read_url (str "postgres");
  is_loopback_ip = text_eq (str "127.0.0.1");
  parse_duration = read_duration;
  to_lower = map lower;
  fold = map lower;
  is_abs = λ path. false;
}

platform_opaque :
    (raw : Text) (u : Url) → platform.parse_request_uri raw ≡ some u → u.host ≢ [] → u.opaque ≡ []
unfolding strip_prefix str
platform_opaque raw u h given = elim (Option-cases (strip_prefix (str "https" ++ str "://") raw)) [
  | inl absent ↦ absurd (let h' : ◌≡◌ {A = Option Url} none (some u) = rw absent at h in cc)
  | inr (rest, found) ↦
      (let h' : some (plain_url (str "https") rest) ≡ some u = rw found at h in
        let same : plain_url (str "https") rest ≡ u = cc in sym (ap (λ v. v.opaque) same))
]

pub platform-IsDocumented : IsDocumented platform
unfolding lower str
platform-IsDocumented = record {
  opaque_or_host = platform_opaque;
  lower_http = refl;
  lower_https = refl;
}

abbrev pub environment : Assoc Text
environment =
    (str "PUBLIC_BASE_URL", str "https://a2a.example")
    ∷ (str "OIDC_ISSUER", str " https://issuer ")
    ∷ (str "OIDC_AUDIENCE", str "bridge")
    ∷ (str "OIDC_ALLOWED_ALGORITHMS", str "RS256, ES256")
    ∷ (str "DATABASE_URL", str "postgres://db/tasks")
    ∷ (str "DATABASE_MIN_CONNECTIONS", str "5")
    ∷ []

abbrev minute : ℤ
minute = pos 60000000000

abbrev pub oidc : OidcConfig
oidc = record {
  issuer = str "https://issuer";
  audience = str "bridge";
  tenant_claim = str "tenant_id";
  allowed_algorithms = str "RS256" ∷ str "ES256" ∷ [];
  required_scopes = str "a2a" ∷ [];
  clock_skew = minute;
  http_timeout = pos 10000000000;
  allow_private_ips = true;
}

abbrev pub config : Config
config = record {
  environment = str "development";
  port = pos 8080;
  public_base_url = str "https://a2a.example";
  agent_card_path = str "config/agent-card.json";
  shutdown_timeout = pos 20000000000;
  keep_alive = pos 15000000000;
  agent_inactivity = pos 300000000000;
  http_read_timeout = pos 30000000000;
  max_request_bytes = pos 1048576;
  oidc = oidc;
  database = record {
    url = str "postgres://db/tasks";
    password_file = [];
    max_connections = pos 20;
    min_connections = pos 5;
    max_connection_life = pos 3600000000000;
    max_connection_idle = pos 900000000000;
    health_check_period = pos 30000000000;
  };
}

pub loaded : load platform environment ≡ ok config
unfolding load load_environment load_port load_base_url load_max_bytes load_oidc_config
    load_oidc_values load_clock_skew check_issuer check_algorithms load_database_config
    check_database_url load_limits has_credential_key has_password is_postgres is_rooted is_local
    is_deployed is_http getenv env_or_default allowed_oidc_algorithm has_blank split_csv
    trimmed_items parse_int32 parse_positive_duration int_lt itoa parse_int parse_digits
    digits_value negative nonnegative bind_option lookup text_eq str cut strip_prefix lower
    trim_space split split_parts decimal
loaded = refl

load-IsBounded_example : IsBounded config
load-IsBounded_example = load-IsBounded platform environment config loaded
