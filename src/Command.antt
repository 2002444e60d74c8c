-- ===== src/Command.antt =====
-- cmd/server/main.go and cmd/migrate/main.go: `run`. The signals, the shutdown and the serving of
-- requests are left out: `run` answers what is served, or why nothing is. The verifier's clock is
-- at `now`.
pub mod Parts
pub mod Wiring
use a2a_red_panda_server_con.Prelude.{
  ok, ◌>>◌, ◌>>=◌, Text, text_eq, str, Assoc, ℕ, not, Option, none, some, [], if◌then◌else◌, pos,
  Result, refuse_if, Bool, true, List,
}
use a2a_red_panda_server_con.Auth.Oidc.{OidcError, wrap_error}
use a2a_red_panda_server_con.Auth.Oidc.Claims.{Numbers, verify}
use a2a_red_panda_server_con.Auth.Oidc.New.{default_transport, Discovery, new_oidc_verifier}
use a2a_red_panda_server_con.Auth.Scope.{Authenticator, ConfigError, new_authenticator}
use a2a_red_panda_server_con.Config.{
  OidcConfig, DatabaseConfig, LoadError, getenv, enabled, is_local,
}
use a2a_red_panda_server_con.Config.Load.{load}
use a2a_red_panda_server_con.Platform.{Platform}
use a2a_red_panda_server_con.Server.Assembly.{ServerError, is_absent, Assembled, new_server}
use a2a_red_panda_server_con.Server.Card.{AgentCard, CardError, load_agent_card}
use a2a_red_panda_server_con.Storage.Migrations.{SchemaError}
use a2a_red_panda_server_con.Storage.Migrations.Run.{
  Database, MigrationFaults, migrate, verify_schema,
}
use a2a_red_panda_server_con.Storage.Migrations.Source.{Entry}
use a2a_red_panda_server_con.Storage.Pool.{PoolConfig, PgxConfig, PoolError, File, open_pool}
use a2a_red_panda_server_con.Strings.{trim_space}

pub data RunError : Type 0 where
  config_error : LoadError → RunError
  dispatcher_unconfigured database_unauthenticated database_url_required : RunError
  verifier_error : OidcError → RunError
  authenticator_error : ConfigError → RunError
  pool_error : PoolError → RunError
  schema_error : SchemaError → RunError
  build_error : ServerError → RunError

-- `auth.NewOIDCVerifier` and `auth.NewAuthenticator`, over `http.DefaultClient`.
unfoldable pub build_authentication :
    Platform → Discovery → Numbers → (now : ℕ) → OidcConfig → Result RunError (Option Authenticator)
build_authentication p discover numbers now c = if not (enabled c) then ok none else do
  verifier ← wrap_error verifier_error (new_oidc_verifier p discover c (some default_transport))
  authenticator ←
      wrap_error authenticator_error
        (new_authenticator (some (verify numbers verifier now)) c.issuer c.required_scopes)
  ok (some authenticator)

-- What the pool is told of the configuration.
unfoldable pub pool_config_of : DatabaseConfig → PoolConfig
pool_config_of c = record {
  database_url = c.url;
  password_file = c.password_file;
  application_name = str "bridge-a2a-server";
  max_conns = c.max_connections;
  min_conns = c.min_connections;
  max_conn_lifetime = c.max_connection_life;
  max_conn_idle_time = c.max_connection_idle;
  health_check_period = c.health_check_period;
}

-- What the migration command tells the pool of the environment.
unfoldable pub migrate_pool_config : Assoc Text → PoolConfig
migrate_pool_config env = record {
  database_url = trim_space (getenv env (str "DATABASE_URL"));
  password_file = trim_space (getenv env (str "DATABASE_PASSWORD_FILE"));
  application_name = str "bridge-a2a-migrate";
  max_conns = pos 1;
  min_conns = pos 0;
  max_conn_lifetime = pos 0;
  max_conn_idle_time = pos 0;
  health_check_period = pos 0;
}

module _ {Rest : Type 0} where
  -- `open_database` is `OpenPool` and `check` is `VerifySchema` over a pool. A store is its pool.
  unfoldable pub build_store :
      (open_database : PoolConfig → Result PoolError (PgxConfig Rest))
      (check : PgxConfig Rest → Result SchemaError (Unit {0}))
      → DatabaseConfig
      → Option Authenticator
      → Result RunError (Option (PgxConfig Rest))
  build_store open_database check c authentication = if text_eq c.url [] then ok none else do
    refuse_if (is_absent authentication) database_unauthenticated
    pool ← wrap_error pool_error (open_database (pool_config_of c))
    wrap_error schema_error (check pool)
    ok (some pool)

-- `orchestrator.LoopbackDispatcher{}`
pub data Loopback : Type 0 where
  loopback : Loopback

-- What a run finds outside of the program: `Schema` is what a database has besides the ledger of
-- migrations, and `Card` what a card has besides what is read or written.
pub record World (Rest Schema Card : Type 0) : Type 0 where
  pub platform : Platform
  pub discovery : Discovery
  pub numbers : Numbers
  pub now : ℕ
  pub windows : Bool
  pub open_file : Text → Option File
  pub parse : Text → Option (PgxConfig Rest)
  pub create_fails : PgxConfig Rest → Bool
  pub ping_fails : PgxConfig Rest → Bool
  pub sha256 : Text → Text
  pub directory : Option (List Entry)
  pub database : PgxConfig Rest → Database Schema
  pub faults : MigrationFaults
  pub http_json : Text
  pub card_path : Text
  pub version : Text
  pub read_file : Text → Option Text
  pub decode : Text → Option (AgentCard Card)

module _ {Rest Schema Card : Type 0} (w : World Rest Schema Card) (env : Assoc Text) where
  unfoldable pub open_database : PoolConfig → Result PoolError (PgxConfig Rest)
  open_database c =
      (open_pool w.platform env w.windows w.open_file w.parse w.create_fails w.ping_fails c).0

  unfoldable pub check_schema : PgxConfig Rest → Result SchemaError (Unit {0})
  check_schema settings = (verify_schema w.sha256 w.faults true w.directory (w.database settings)).0

  -- `run` of cmd/server.
  unfoldable pub run_server : Result RunError (Assembled Loopback (PgxConfig Rest) Card)
  run_server = do
    c ← wrap_error config_error (load w.platform env)
    refuse_if (not (is_local c.environment)) dispatcher_unconfigured
    authentication ← build_authentication w.platform w.discovery w.numbers w.now c.oidc
    store ← build_store open_database check_schema c.database authentication
    wrap_error build_error (
        new_server w.card_path (load_agent_card w.http_json w.version w.read_file w.decode) c
          (record {
            dispatcher = some loopback;
            task_store = store;
            authentication = authentication;
          }))

  -- `run` of cmd/migrate: `execute` runs a migration's statements.
  unfoldable pub run_migrate :
      (execute : Text → Schema → Option Schema) → Result RunError (Unit {0})
  run_migrate execute =
      let c = migrate_pool_config env in
      do
        refuse_if (text_eq c.database_url []) database_url_required
        pool ← wrap_error pool_error (open_database c)
        let (migrated, db, _) = migrate w.sha256 execute w.faults true w.directory (w.database pool)
        wrap_error schema_error migrated
        wrap_error schema_error (verify_schema w.sha256 w.faults true w.directory db).0
