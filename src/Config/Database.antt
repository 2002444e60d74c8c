-- ===== src/Config/Database.antt =====
-- internal/config/config.go: `loadDatabaseConfig`.
use a2a_red_panda_server_con.Prelude.{
  ok, ◌>>◌, ◌>>=◌, Text, text_eq, str, Assoc, Bool, true, false, ◌&&◌, ◌||◌, not, none, some, List,
  [], ◌∷◌, if◌then◌else◌, pos, Result, refuse_if, or_fail,
}
use a2a_red_panda_server_con.Config.{
  DatabaseConfig, no_database, LoadError, password_file_alone, bad_database_url, password_in_url,
  credentials_in_url, relative_password_file, getenv, parse_int32, parse_positive_duration,
}
use a2a_red_panda_server_con.Platform.{Url, Platform}
use a2a_red_panda_server_con.Strings.{strip_prefix, trim_space}

-- The query keys through which PostgreSQL's client libraries take credentials.
unfoldable pub credential_key : Text → Bool
credential_key key =
    text_eq key (str "password")
    || text_eq key (str "sslpassword")
    || text_eq key (str "passfile")
    || text_eq key (str "service")
    || text_eq key (str "servicefile")

-- Whether the loop over the query's keys refuses one.
unfoldable pub has_credential_key : Platform → List Text → Bool
has_credential_key p [] = false
has_credential_key p (key ∷ keys) = credential_key (p.to_lower key) || has_credential_key p keys

-- `parsedURL.User != nil` and `parsedURL.User.Password()` gives one.
unfoldable pub has_password : Url → Bool
has_password u = elim u.user [
  | none ↦ false
  | some password ↦ elim password [ none ↦ false | some secret ↦ true ]
]

unfoldable pub is_postgres : Url → Bool
is_postgres u = text_eq u.scheme (str "postgres") || text_eq u.scheme (str "postgresql")

unfoldable pub check_database_url : Platform → Text → Result LoadError (Unit {0})
check_database_url p database_url = do
  url ← or_fail (p.parse_url database_url) bad_database_url
  refuse_if (text_eq url.host [] || not (is_postgres url)) bad_database_url
  refuse_if (has_password url) password_in_url
  refuse_if (has_credential_key p url.query_keys) credentials_in_url

unfoldable pub is_rooted : Text → Bool
is_rooted path = elim (strip_prefix (str "/") path) [ none ↦ false | some rest ↦ true ]

-- The limits of the pool, behind the tests on the URL and the file.
unfoldable pub load_limits :
    Platform → Assoc Text → (database_url password_file : Text) → Result LoadError DatabaseConfig
load_limits p env database_url password_file = do
  max ← parse_int32 env (str "DATABASE_MAX_CONNECTIONS") (pos 20) (pos 1) (pos 500)
  min ← parse_int32 env (str "DATABASE_MIN_CONNECTIONS") (pos 2) (pos 0) max
  life ← parse_positive_duration p env (str "DATABASE_MAX_CONNECTION_LIFETIME") (str "1h")
  idle ← parse_positive_duration p env (str "DATABASE_MAX_CONNECTION_IDLE") (str "15m")
  period ← parse_positive_duration p env (str "DATABASE_HEALTH_CHECK_PERIOD") (str "30s")
  ok (record {
    url = database_url;
    password_file = password_file;
    max_connections = max;
    min_connections = min;
    max_connection_life = life;
    max_connection_idle = idle;
    health_check_period = period;
  })

unfoldable pub load_database_config : Platform → Assoc Text → Result LoadError DatabaseConfig
load_database_config p env =
    let database_url = trim_space (getenv env (str "DATABASE_URL")) in
    let password_file = trim_space (getenv env (str "DATABASE_PASSWORD_FILE")) in
    if text_eq database_url []
    then (refuse_if (not (text_eq password_file [])) password_file_alone >> ok no_database)
    else do
      check_database_url p database_url
      refuse_if
          (not (text_eq password_file [])
            && not (p.is_abs password_file)
            && not (is_rooted password_file))
          relative_password_file
      load_limits p env database_url password_file
