-- ===== src/Tests/CommandTests.antt =====
-- The theorem on the server's command, run in an environment with a verifier and a database.
use a2a_red_panda_server_con.Prelude.{
  Text, text_eq, str, lookup, without, insert, ℕ, ◌≡◌, refl, false, List, [], ◌∷◌, ok, pos,
}
use a2a_red_panda_server_con.Auth.Oidc.{wrap_error}
use a2a_red_panda_server_con.Auth.Oidc.Claims.{verify}
use a2a_red_panda_server_con.Auth.Scope.{Authenticator}
use a2a_red_panda_server_con.Command.{
  Loopback, loopback, World, open_database, migrate_pool_config, run_migrate,
}
use a2a_red_panda_server_con.Config.{getenv}
use a2a_red_panda_server_con.Config.Database.{has_credential_key, has_password, is_postgres}
use a2a_red_panda_server_con.Platform.{int_lt}
use a2a_red_panda_server_con.Server.Assembly.{
  given_store, protocol_version, identity_binding, error_boundary, Assembled, authenticate,
  body_limit, service_parameters, card_handler, rest_handler,
}
use a2a_red_panda_server_con.Server.Card.{configure_agent_card}
use a2a_red_panda_server_con.Storage.Migrations.Run.{no_migration_faults, verify_locked}
use a2a_red_panda_server_con.Storage.Pool.{
  PgxConfig, check_variables, check_limits, check_pool_url, override, with_settings, pool_password,
  parse_pool_config, open_pool,
}
use a2a_red_panda_server_con.Strings.{strip_prefix, trim_space, cut}
use a2a_red_panda_server_con.Tests.ConfigTests.{platform, environment}
use a2a_red_panda_server_con.Tests.MigrationTests.{
  checksum, directory, migrating, migrated, run_script, fresh,
}
use a2a_red_panda_server_con.Tests.OidcTests.{discover, built, numbers}
use a2a_red_panda_server_con.Tests.PoolTests.{
  open_file, parsed, fine, published, read_file, decode_card,
}

abbrev world : World ℕ (List Text) ℕ
world = record {
  platform = platform;
  discovery = discover;
  numbers = numbers;
  now = 5;
  windows = false;
  open_file = open_file;
  parse = parsed;
  create_fails = fine;
  ping_fails = fine;
  sha256 = checksum;
  directory = directory;
  database = λ settings. migrated;
  faults = no_migration_faults;
  http_json = str "HTTP+JSON";
  card_path = str "/.well-known/agent-card.json";
  version = str "1.0";
  read_file = read_file;
  decode = decode_card;
}

abbrev gatekeeper : Authenticator
gatekeeper = record {
  verifier = verify numbers built 5;
  issuer = str "https://issuer";
  required_scopes = str "a2a" ∷ [];
}

abbrev pool : PgxConfig ℕ
pool = record {
  password = [];
  runtime_params = (str "application_name", str "bridge-a2a-server") ∷ [];
  max_conns = pos 20;
  min_conns = pos 5;
  max_conn_lifetime = pos 3600000000000;
  max_conn_idle_time = pos 900000000000;
  health_check_period = pos 30000000000;
  rest = 0;
}

abbrev served : Assembled Loopback (PgxConfig ℕ) ℕ
served = record {
  card = configure_agent_card gatekeeper published;
  dispatcher = loopback;
  store = given_store pool;
  interceptors = protocol_version ∷ identity_binding ∷ error_boundary ∷ [];
  keep_alive = pos 15000000000;
  agent_inactivity = pos 300000000000;
  routes =
      (str "/.well-known/agent-card.json", card_handler (configure_agent_card gatekeeper published))
      ∷ (
        str "/",
        rest_handler (authenticate gatekeeper ∷ body_limit (pos 1048576) ∷ service_parameters ∷ []),
      )
      ∷ [];
}

-- The migration command runs in the same environment on an empty database.
migrating_now :
    run_migrate (record world { database = λ settings. fresh }) environment run_script ≡ ok tt
unfolding run_migrate migrate_pool_config open_database open_pool parse_pool_config check_limits
    check_variables check_pool_url pool_password with_settings override is_postgres has_password
    has_credential_key getenv lookup insert without int_lt trim_space text_eq str strip_prefix cut
    wrap_error migrating verify_locked
migrating_now = refl
