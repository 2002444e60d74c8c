-- ===== src/Config/Load.antt =====
-- internal/config/config.go: `Load`. The parts of `Load`
-- are functions of their own, in the order of the code; its four positive durations are read as
-- `parsePositiveDuration` reads one.
use a2a_red_panda_server_con.Prelude.{
  Text, ◌&&◌, ◌||◌, not, [], ◌∷◌, ◌++◌, str, text_eq, Assoc, Result, ok, ◌>>◌, ◌>>=◌, refuse_if,
  or_fail, if◌then◌else◌, ℤ, pos,
}
use a2a_red_panda_server_con.Config.{
  env_or_default, parse_positive_duration, LoadError, bad_environment, bad_port, bad_base_url,
  base_url_parts, base_url_scheme, bad_max_bytes, Config, is_local, is_deployed, is_http, has_user,
}
use a2a_red_panda_server_con.Config.Database.{load_database_config}
use a2a_red_panda_server_con.Config.Oidc.{load_oidc_config}
use a2a_red_panda_server_con.Platform.{Platform, int_lt, itoa, parse_int}
use a2a_red_panda_server_con.Strings.{trim_space}

unfoldable pub load_environment : Platform → Assoc Text → Result LoadError Text
load_environment p env =
    let environment =
      p.to_lower (trim_space (env_or_default env (str "APP_ENV") (str "development"))) in
    refuse_if (not (is_local environment || is_deployed environment)) bad_environment
    >> ok environment

unfoldable pub load_port : Assoc Text → Result LoadError ℤ
load_port env = do
  port ← or_fail (parse_int 64 (env_or_default env (str "PORT") (str "8080"))) bad_port
  refuse_if (int_lt port (pos 1) || int_lt (pos 65535) port) bad_port
  ok port

unfoldable pub load_base_url :
    Platform → Assoc Text → (environment : Text) (port : ℤ) → Result LoadError Text
load_base_url p env environment port =
    let base_url =
      env_or_default env (str "PUBLIC_BASE_URL") (str "http://localhost:" ++ itoa port) in
    do
      url ← or_fail (p.parse_request_uri base_url) bad_base_url
      refuse_if (text_eq url.host [] || not (is_http url)) bad_base_url
      refuse_if
          (has_user url
            || not (text_eq url.raw_query [])
            || not (text_eq url.fragment [])
            || not (text_eq url.path []) && not (text_eq url.path (str "/")))
          base_url_parts
      refuse_if (is_deployed environment && not (text_eq url.scheme (str "https"))) base_url_scheme
      ok base_url

unfoldable pub load_max_bytes : Assoc Text → Result LoadError ℤ
load_max_bytes env = do
  value ←
      or_fail (parse_int 64 (env_or_default env (str "MAX_REQUEST_BODY_BYTES") (str "1048576")))
        bad_max_bytes
  refuse_if (not (int_lt (pos 0) value)) bad_max_bytes
  ok value

unfoldable pub load : Platform → Assoc Text → Result LoadError Config
load p env = do
  environment ← load_environment p env
  port ← load_port env
  base_url ← load_base_url p env environment port
  shutdown ← parse_positive_duration p env (str "SHUTDOWN_TIMEOUT") (str "20s")
  keep_alive ← parse_positive_duration p env (str "A2A_KEEP_ALIVE_INTERVAL") (str "15s")
  inactivity ← parse_positive_duration p env (str "A2A_AGENT_INACTIVITY_TIMEOUT") (str "5m")
  read ← parse_positive_duration p env (str "HTTP_READ_TIMEOUT") (str "30s")
  max_bytes ← load_max_bytes env
  oidc ← load_oidc_config p env environment
  database ← load_database_config p env
  ok (record {
    environment = environment;
    port = port;
    public_base_url = base_url;
    agent_card_path = env_or_default env (str "AGENT_CARD_PATH") (
        if is_deployed environment
        then str "/app/config/agent-card.json"
        else str "config/agent-card.json");
    shutdown_timeout = shutdown;
    keep_alive = keep_alive;
    agent_inactivity = inactivity;
    http_read_timeout = read;
    max_request_bytes = max_bytes;
    oidc = oidc;
    database = database;
  })

-- `Config.Address`
unfoldable pub address : Config → Text
address c = b':' ∷ itoa c.port
