-- ===== src/Tests/PoolTests.antt =====
-- The theorems on the connection pool, the agent card and the server's assembly at concrete inputs.
use a2a_red_panda_server_con.Prelude.{
  Text, text_eq, str, ℕ, ◌≡◌, refl, Bool, true, false, Option, none, some, [], ◌∷◌, ◌++◌,
  if◌then◌else◌, ok, err, pos, Result,
}
use a2a_red_panda_server_con.Auth.Oidc.{wrap_error}
use a2a_red_panda_server_con.Auth.Scope.{Authenticator}
use a2a_red_panda_server_con.Config.{Config, is_local}
use a2a_red_panda_server_con.Platform.{int_lt}
use a2a_red_panda_server_con.Server.Assembly.{
  Dependencies, store_needed, given_store, protocol_version, identity_binding, error_boundary,
  Assembled, or_default, interceptors_of, is_absent, choose_store, new_server, authenticate,
  body_limit, service_parameters, card_handler, rest_handler, layers_of,
}
use a2a_red_panda_server_con.Server.Assembly.Guarded.{IsGuarded, new_server-IsGuarded}
use a2a_red_panda_server_con.Server.Card.{
  AgentCard, CardError, check_skills, check_card, project_interfaces, interfaces_of,
  load_agent_card, configure_agent_card,
}
use a2a_red_panda_server_con.Server.Card.Published.{IsPublishable, load_agent_card-IsPublishable}
use a2a_red_panda_server_con.Storage.Pool.{
  PoolConfig, PgxConfig, File, check_info, check_contents, read_password_file,
}
use a2a_red_panda_server_con.Strings.{is_in, trim_right}
use a2a_red_panda_server_con.Tests.ConfigTests.{config}

abbrev private_file : File
private_file = record {
  info = some (record { regular = true; permissions = 0x180; size = 7 });
  contents = some (str "secret" ++ (10 ∷ []));
}

abbrev pub open_file : Text → Option File
open_file path = if text_eq path (str "/run/password") then some private_file else none

abbrev pub parsed : Text → Option (PgxConfig ℕ)
parsed url = some (record {
  password = [];
  runtime_params = [];
  max_conns = pos 4;
  min_conns = pos 0;
  max_conn_lifetime = pos 1;
  max_conn_idle_time = pos 1;
  health_check_period = pos 1;
  rest = 0;
})

abbrev pool_settings : PoolConfig
pool_settings = record {
  database_url = str "postgres://db/tasks";
  password_file = str "/run/password";
  application_name = str "bridge-a2a-server";
  max_conns = pos 20;
  min_conns = pos 2;
  max_conn_lifetime = pos 60;
  max_conn_idle_time = pos 30;
  health_check_period = pos 10;
}

abbrev pub fine : PgxConfig ℕ → Bool
fine settings = false

password_read : read_password_file false open_file (str "/run/password") ≡ ok (str "secret")
unfolding read_password_file check_info check_contents trim_right is_in text_eq str
password_read = refl

abbrev card : AgentCard ℕ
card = record {
  name = str "Bridge";
  description = str "An agent";
  version = str "1";
  skills =
      record {
        id = str "s";
        name = str "skill";
        description = str "does";
        tags = str "t" ∷ [];
        security_requirements = [];
      }
      ∷ [];
  default_input_modes = str "text" ∷ [];
  default_output_modes = str "text" ∷ [];
  capabilities = record {
    streaming = true;
    push_notifications = false;
    extended_agent_card = false;
    extensions = [];
  };
  security_schemes = [];
  security_requirements = [];
  signatures = [];
  supported_interfaces = [];
  rest = 0;
}

abbrev pub read_file : Text → Option Text
read_file path = some path

abbrev pub decode_card : Text → Option (AgentCard ℕ)
decode_card contents = some card

abbrev pub published : AgentCard ℕ
published = record card {
  supported_interfaces =
      some (record {
        url = str "https://a2a.example";
        protocol_binding = str "HTTP+JSON";
        protocol_version = str "1.0";
      })
      ∷ [];
}

card_loaded :
    load_agent_card
      (str "HTTP+JSON")
      (str "1.0")
      read_file
      decode_card
      (str "card.json")
      (str "https://a2a.example/")
    ≡ ok published
unfolding load_agent_card check_card check_skills project_interfaces interfaces_of trim_right is_in
    text_eq str
card_loaded = refl

load_agent_card-IsPublishable_example :
    IsPublishable
      (str "HTTP+JSON")
      (str "1.0")
      (trim_right (str "/") (str "https://a2a.example/"))
      published
load_agent_card-IsPublishable_example =
    load_agent_card-IsPublishable (str "HTTP+JSON") (str "1.0") read_file decode_card
      (str "card.json") (str "https://a2a.example/") published card_loaded

abbrev pub load_card : (path base : Text) → Result CardError (AgentCard ℕ)
load_card path base = ok published

abbrev guard : Authenticator
guard = record {
  verifier = λ raw. none;
  issuer = str "https://issuer/";
  required_scopes = str "a2a" ∷ [];
}

abbrev production : Config
production = record config { environment = str "production"; keep_alive = pos 0 }

abbrev dependencies : Dependencies ℕ ℕ
dependencies = record { dispatcher = some 1; task_store = some 2; authentication = some guard }

abbrev assembled : Assembled ℕ ℕ ℕ
assembled = record {
  card = configure_agent_card guard published;
  dispatcher = 1;
  store = given_store 2;
  interceptors = protocol_version ∷ identity_binding ∷ error_boundary ∷ [];
  keep_alive = pos 15000000000;
  agent_inactivity = pos 300000000000;
  routes =
      (str "/.well-known/agent-card.json", card_handler (configure_agent_card guard published))
      ∷ (
        str "/",
        rest_handler (authenticate guard ∷ body_limit (pos 1048576) ∷ service_parameters ∷ []),
      )
      ∷ [];
}

abbrev pub card_path : Text
card_path = str "/.well-known/agent-card.json"

assembling : new_server card_path load_card production dependencies ≡ ok assembled
unfolding new_server wrap_error choose_store is_absent is_local interceptors_of layers_of or_default
    int_lt text_eq str
assembling = refl

new_server-IsGuarded_example : IsGuarded (str "production") card_path dependencies assembled
unfolding str
new_server-IsGuarded_example =
    new_server-IsGuarded card_path load_card production dependencies assembled (λ e. cc) assembling

-- Without a store a server is assembled in a local environment only.
store_required :
    new_server card_path load_card production (record dependencies { task_store = none })
    ≡ err store_needed
unfolding new_server wrap_error choose_store is_absent is_local interceptors_of layers_of or_default
    int_lt text_eq str
store_required = refl
