-- ===== src/Config/Bounds.antt =====
-- The ranges of a configuration that was loaded.
use a2a_red_panda_server_con.Prelude.{
  Text, Assoc, ℕ, ◌≡◌, ◌||◌, not, ok, pos, checked-eq-ok, ℤ, str, ◌≤◌, subst, ◌⊎◌, inl, inr, false,
}
use a2a_red_panda_server_con.Config.{
  bad_port, bad_max_bytes, bad_clock_skew, not_positive, out_of_range, env_or_default, parse_int32,
  parse_positive_duration, OidcConfig, DatabaseConfig, Config, no_oidc, no_database,
}
use a2a_red_panda_server_con.Config.Database.{load_database_config}
use a2a_red_panda_server_con.Config.Load.{load_port, load_max_bytes, load}
use a2a_red_panda_server_con.Config.Loaded.{load-IsLoaded}
use a2a_red_panda_server_con.Config.Oidc.{max_clock_skew, load_clock_skew, load_oidc_config}
use a2a_red_panda_server_con.Config.Parts.{
  load_oidc_config-IsOidcLoaded, IsDatabaseLoaded, load_database_config-IsDatabaseLoaded,
}
use a2a_red_panda_server_con.Platform.{Platform, int_lt, itoa, parse_int}
use a2a_red_panda_server_con.Platform.Ranges.{
  IsBetween, IsPositive, int_lt-IsBetween, int_lt-IsPositive,
}

-- The limits of a pool: from one to 500 connections, of which at least the least many are kept
-- open, and three positive durations.
abbrev pub HasLimits : DatabaseConfig → Type 0
HasLimits c =
    (high : ℕ) × (c.max_connections ≡ pos high)
    × (1 ≤ high)
    × (high ≤ 500)
    × IsBetween 0 high c.min_connections
    × IsPositive c.max_connection_life
    × IsPositive c.max_connection_idle
    × IsPositive c.health_check_period

module _ (p : Platform) (env : Assoc Text) where
  -- The test on a duration that was read has not refused it.
  pub parse_positive_duration_test :
      (key fallback : Text) {v : ℤ}
      → parse_positive_duration p env key fallback ≡ ok v
      → not (int_lt (pos 0) v) ≡ false
  unfolding parse_positive_duration
  parse_positive_duration_test key fallback h =
      (checked-eq-ok (p.parse_duration (env_or_default env key fallback)) (not_positive key)
        (λ v. not (int_lt (pos 0) v)) (not_positive key) h).1

  parse_positive_duration-IsPositive :
      (key fallback : Text) {v : ℤ}
      → parse_positive_duration p env key fallback ≡ ok v
      → IsPositive v
  parse_positive_duration-IsPositive key fallback {v = v} h =
      int_lt-IsPositive v (parse_positive_duration_test key fallback h)

  parse_int32-IsBetween :
      (key : Text) (fallback : ℤ) (low high : ℕ) {v : ℤ}
      → parse_int32 env key fallback (pos low) (pos high) ≡ ok v
      → IsBetween low high v
  unfolding parse_int32
  parse_int32-IsBetween key fallback low high {v = v} h =
      int_lt-IsBetween v low high
        (checked-eq-ok (parse_int 32 (env_or_default env key (itoa fallback)))
          (out_of_range key (pos low) (pos high)) (λ v. int_lt v (pos low) || int_lt (pos high) v)
          (out_of_range key (pos low) (pos high)) h).1

  load_port-IsBetween : {v : ℤ} → load_port env ≡ ok v → IsBetween 1 65535 v
  unfolding load_port
  load_port-IsBetween {v = v} h =
      int_lt-IsBetween v 1 65535
        (checked-eq-ok _ bad_port (λ v. int_lt v (pos 1) || int_lt (pos 65535) v) bad_port h).1

  load_max_bytes-IsPositive : {v : ℤ} → load_max_bytes env ≡ ok v → IsPositive v
  unfolding load_max_bytes
  load_max_bytes-IsPositive {v = v} h =
      int_lt-IsPositive v
        (checked-eq-ok _ bad_max_bytes (λ v. not (int_lt (pos 0) v)) bad_max_bytes h).1

  pub load_clock_skew_test :
      {v : ℤ} → load_clock_skew p env ≡ ok v → (int_lt v (pos 0) || int_lt max_clock_skew v) ≡ false
  unfolding load_clock_skew
  load_clock_skew_test h =
      (checked-eq-ok _ bad_clock_skew (λ v. int_lt v (pos 0) || int_lt max_clock_skew v)
        bad_clock_skew h).1

  load_clock_skew-IsBetween : {v : ℤ} → load_clock_skew p env ≡ ok v → IsBetween 0 300000000000 v
  load_clock_skew-IsBetween {v = v} h = int_lt-IsBetween v 0 300000000000 (load_clock_skew_test h)

  IsDatabaseLoaded-HasLimits : (c : DatabaseConfig) → IsDatabaseLoaded p env c → HasLimits c
  IsDatabaseLoaded-HasLimits c (_, _, _, high, low, life, idle, period) =
      let (n, same, least, most) =
        parse_int32-IsBetween (str "DATABASE_MAX_CONNECTIONS") (pos 20) 1 500 high in
      let low' : parse_int32 env (str "DATABASE_MIN_CONNECTIONS") (pos 2) (pos 0) (pos n)
          ≡ ok c.min_connections =
        subst
          (λ m.
            parse_int32 env (str "DATABASE_MIN_CONNECTIONS") (pos 2) (pos 0) m
            ≡ ok c.min_connections)
          same low in
      (
        n,
        same,
        least,
        most,
        parse_int32-IsBetween (str "DATABASE_MIN_CONNECTIONS") (pos 2) 0 n low',
        parse_positive_duration-IsPositive _ _ life,
        parse_positive_duration-IsPositive _ _ idle,
        parse_positive_duration-IsPositive _ _ period,
      )

  oidc_bounds :
      (environment : Text) (c : OidcConfig)
      → load_oidc_config p env environment ≡ ok c
      → (c ≡ no_oidc) ⊎ IsBetween 0 300000000000 c.clock_skew × IsPositive c.http_timeout
  oidc_bounds environment c h = elim (load_oidc_config-IsOidcLoaded p env environment c h) [
    | inl absent ↦ inl absent
    | inr (_, _, _, _, skew, timeout, _, _, _, _, _) ↦
        inr (load_clock_skew-IsBetween skew, parse_positive_duration-IsPositive _ _ timeout)
  ]

  database_bounds :
      (c : DatabaseConfig) → load_database_config p env ≡ ok c → (c ≡ no_database) ⊎ HasLimits c
  database_bounds c h = elim (load_database_config-IsDatabaseLoaded p env c h) [
    | inl absent ↦ inl absent
    | inr loaded ↦ inr (IsDatabaseLoaded-HasLimits c loaded)
  ]

-- The ranges in which the numbers of a configuration lie: of the server, of the verifier, if there
-- is one, and of the pool, if there is one.
abbrev pub IsBounded : Config → Type 0
IsBounded c =
    IsBetween 1 65535 c.port
    × IsPositive c.shutdown_timeout
    × IsPositive c.keep_alive
    × IsPositive c.agent_inactivity
    × IsPositive c.http_read_timeout
    × IsPositive c.max_request_bytes
    × ((c.oidc ≡ no_oidc)
        ⊎ IsBetween 0 300000000000 c.oidc.clock_skew × IsPositive c.oidc.http_timeout)
    × ((c.database ≡ no_database) ⊎ HasLimits c.database)

-- In a configuration that was loaded, whatever the environment, the port is from 1 to 65535; the
-- timeouts, the intervals and the limit on a request's body are positive; without a verifier the
-- OIDC part is the zero one, and with one its clock skew is from 0 to 5 minutes and its timeout is
-- positive; and without a database that part is the zero one, and with one the connections are at
-- most 500, the least number of them at most the largest, and the three durations positive.
pub load-IsBounded :
    (p : Platform) (env : Assoc Text) (c : Config) → load p env ≡ ok c → IsBounded c
load-IsBounded p env c h =
    let (_, port, _, shutdown, keep_alive, inactivity, read, bytes, oidc, database) =
      load-IsLoaded p env c h in
    (
      load_port-IsBetween p env port,
      parse_positive_duration-IsPositive p env _ _ shutdown,
      parse_positive_duration-IsPositive p env _ _ keep_alive,
      parse_positive_duration-IsPositive p env _ _ inactivity,
      parse_positive_duration-IsPositive p env _ _ read,
      load_max_bytes-IsPositive p env bytes,
      oidc_bounds p env c.environment c.oidc oidc,
      database_bounds p env c.database database,
    )
