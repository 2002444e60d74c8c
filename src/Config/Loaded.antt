-- ===== src/Config/Loaded.antt =====
-- What a configuration that was loaded was made of.
use a2a_red_panda_server_con.Prelude.{
  Text, str, Assoc, ◌≡◌, subst, if◌then◌else◌, ok, >>=-eq-ok, ok-injective,
}
use a2a_red_panda_server_con.Config.{Config, env_or_default, parse_positive_duration, is_deployed}
use a2a_red_panda_server_con.Config.Database.{load_database_config}
use a2a_red_panda_server_con.Config.Load.{
  load_environment, load_port, load_base_url, load_max_bytes, load,
}
use a2a_red_panda_server_con.Config.Oidc.{load_oidc_config}
use a2a_red_panda_server_con.Platform.{Platform}

module _ (p : Platform) (env : Assoc Text) where
  -- Each part of the configuration is what its loader answered.
  abbrev pub IsLoaded : Config → Type 0
  IsLoaded c =
      (load_environment p env ≡ ok c.environment)
      × (load_port env ≡ ok c.port)
      × (load_base_url p env c.environment c.port ≡ ok c.public_base_url)
      × (parse_positive_duration p env (str "SHUTDOWN_TIMEOUT") (str "20s") ≡ ok c.shutdown_timeout)
      × (parse_positive_duration p env (str "A2A_KEEP_ALIVE_INTERVAL") (str "15s")
          ≡ ok c.keep_alive)
      × (parse_positive_duration p env (str "A2A_AGENT_INACTIVITY_TIMEOUT") (str "5m")
          ≡ ok c.agent_inactivity)
      × (parse_positive_duration p env (str "HTTP_READ_TIMEOUT") (str "30s")
          ≡ ok c.http_read_timeout)
      × (load_max_bytes env ≡ ok c.max_request_bytes)
      × (load_oidc_config p env c.environment ≡ ok c.oidc)
      × (load_database_config p env ≡ ok c.database)

  pub load-IsLoaded : (c : Config) → load p env ≡ ok c → IsLoaded c
  unfolding load
  load-IsLoaded c h =
      let (environment, h0, h) = >>=-eq-ok (load_environment p env) _ h in
      let (port, h1, h) = >>=-eq-ok (load_port env) _ h in
      let (base_url, h2, h) = >>=-eq-ok (load_base_url p env environment port) _ h in
      let (shutdown, h3, h) =
        >>=-eq-ok (parse_positive_duration p env (str "SHUTDOWN_TIMEOUT") (str "20s")) _ h in
      let (keep_alive, h4, h) =
        >>=-eq-ok (parse_positive_duration p env (str "A2A_KEEP_ALIVE_INTERVAL") (str "15s")) _ h in
      let (inactivity, h5, h) =
        >>=-eq-ok (parse_positive_duration p env (str "A2A_AGENT_INACTIVITY_TIMEOUT") (str "5m")) _
          h in
      let (read, h6, h) =
        >>=-eq-ok (parse_positive_duration p env (str "HTTP_READ_TIMEOUT") (str "30s")) _ h in
      let (max_bytes, h7, h) = >>=-eq-ok (load_max_bytes env) _ h in
      let (oidc, h8, h) = >>=-eq-ok (load_oidc_config p env environment) _ h in
      let (database, h9, h) = >>=-eq-ok (load_database_config p env) _ h in
      let same : record {
        environment = environment;
        port = port;
        public_base_url = base_url;
        agent_card_path = env_or_default env (str "AGENT_CARD_PATH") (
            if is_deployed environment
            then str "/app/config/agent-card.json"
            else str "config/agent-card.json");
        shutdown_timeout = shutdown;
        keep_alive = keep_alive;
        agent_inactivity = inactivity;
        http_read_timeout = read;
        max_request_bytes = max_bytes;
        oidc = oidc;
        database = database;
      }
          ≡ c =
        ok-injective h in
      subst IsLoaded same (h0, h1, h2, h3, h4, h5, h6, h7, h8, h9)
