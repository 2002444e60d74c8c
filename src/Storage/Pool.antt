-- ===== src/Storage/Pool.antt =====
-- internal/storage/postgres/pool.go: the settings of the connection pool, the password file and the
-- opening of the pool.
pub mod Password
pub mod Opened
use a2a_red_panda_server_con.Prelude.{
  ok, ◌>>◌, ◌>>=◌, Text, text_eq, str, Assoc, insert, ℕ, suc, ◌%◌, Bool, ◌&&◌, ◌||◌, not, Option,
  List, [], ◌∷◌, ltb, ◌==◌, if◌then◌else◌, err, pos, length, take, Result, refuse_if, or_fail, ℤ,
}
use a2a_red_panda_server_con.Config.{getenv}
use a2a_red_panda_server_con.Config.Database.{has_credential_key, has_password, is_postgres}
use a2a_red_panda_server_con.Platform.{Platform, int_lt}
use a2a_red_panda_server_con.Strings.{trim_space, is_in, trim_right}

pub record PoolConfig : Type 0 where
  pub database_url : Text
  pub password_file : Text
  pub application_name : Text
  pub max_conns : ℤ
  pub min_conns : ℤ
  pub max_conn_lifetime : ℤ
  pub max_conn_idle_time : ℤ
  pub health_check_period : ℤ

-- The configuration of the package pgxpool, as far as it is read or written; `Rest` is what else
-- `pgxpool.ParseConfig` makes of the URL and the environment.
pub record PgxConfig (Rest : Type 0) : Type 0 where
  pub password : Text
  pub runtime_params : Assoc Text
  pub max_conns : ℤ
  pub min_conns : ℤ
  pub max_conn_lifetime : ℤ
  pub max_conn_idle_time : ℤ
  pub health_check_period : ℤ
  pub rest : Rest

pub data PoolError : Type 0 where
  url_required negative_limit min_above_max bad_url url_password url_credentials : PoolError
  parse_failed given_password file_failed not_regular open_permissions too_long : PoolError
  empty_password nul_in_password create_failed connect_failed : PoolError
  not_allowed : (key : Text) → PoolError

-- Whether a pool was made, and is still open.
pub data PoolState : Type 0 where
  not_made is_open is_closed : PoolState

-- What `Stat` tells of a file: whether it is a regular one, its permission bits and its size.
pub record FileInfo : Type 0 where
  pub regular : Bool
  pub permissions : ℕ
  pub size : ℕ

-- An open file: what `Stat` answers, and its bytes; either may fail.
pub record File : Type 0 where
  pub info : Option FileInfo
  pub contents : Option Text

abbrev pub max_password_bytes : ℕ
max_password_bytes = 65536

abbrev pub line_end : Text
line_end = 13 ∷ 10 ∷ []

-- The tests on what `Stat` answered. `0o077` is the lowest six bits.
unfoldable pub check_info : (windows : Bool) → FileInfo → Result PoolError (Unit {0})
check_info windows info = do
  refuse_if (not info.regular) not_regular
  refuse_if (not windows && not (info.permissions % 64 == 0)) open_permissions
  refuse_if (ltb max_password_bytes info.size) too_long

-- What follows the reading; the reader gives at most one byte more than the bound.
unfoldable pub check_contents : Text → Result PoolError Text
check_contents contents =
    let read = take (suc max_password_bytes) contents in
    let password = trim_right line_end read in
    do
      refuse_if (ltb max_password_bytes (length read)) too_long
      refuse_if (text_eq password []) empty_password
      refuse_if (is_in 0 password) nul_in_password
      ok password

-- `open` is `os.Open`, and `windows` whether the program runs there.
unfoldable pub read_password_file :
    (windows : Bool) (open_file : Text → Option File) → (path : Text) → Result PoolError Text
read_password_file windows open_file path = do
  file ← or_fail (open_file path) file_failed
  info ← or_fail file.info file_failed
  check_info windows info
  contents ← or_fail file.contents file_failed
  check_contents contents

-- The variables of the environment that name credentials.
abbrev pub forbidden_variables : List Text
forbidden_variables =
    str "PGPASSWORD"
    ∷ str "PGPASSFILE"
    ∷ str "PGSSLPASSWORD"
    ∷ str "PGSERVICE"
    ∷ str "PGSERVICEFILE"
    ∷ []

unfoldable pub check_variables : Assoc Text → List Text → Result PoolError (Unit {0})
check_variables env [] = ok tt
check_variables env (key ∷ keys) = do
  refuse_if (not (text_eq (getenv env key) [])) (not_allowed key)
  check_variables env keys

unfoldable pub check_limits : PoolConfig → Result PoolError (Unit {0})
check_limits c = do
  refuse_if (int_lt c.max_conns (pos 0) || int_lt c.min_conns (pos 0)) negative_limit
  refuse_if (int_lt (pos 0) c.max_conns && int_lt c.max_conns c.min_conns) min_above_max

unfoldable pub check_pool_url : Platform → (database_url : Text) → Result PoolError (Unit {0})
check_pool_url p database_url = do
  url ← or_fail (p.parse_url database_url) bad_url
  refuse_if (text_eq url.host [] || not (is_postgres url)) bad_url
  refuse_if (has_password url) url_password
  refuse_if (has_credential_key p url.query_keys) url_credentials

-- `if value > 0 { field = value }`
unfoldable pub override : (value field : ℤ) → ℤ
override value field = if int_lt (pos 0) value then value else field

module _ {Rest : Type 0} where
  -- The settings that are written over what was parsed.
  unfoldable pub with_settings : PoolConfig → (password : Text) → PgxConfig Rest → PgxConfig Rest
  with_settings c password parsed = record {
    password = password;
    runtime_params =
        if not (text_eq c.application_name [])
        then insert (str "application_name") c.application_name parsed.runtime_params
        else parsed.runtime_params;
    max_conns = override c.max_conns parsed.max_conns;
    min_conns = override c.min_conns parsed.min_conns;
    max_conn_lifetime = override c.max_conn_lifetime parsed.max_conn_lifetime;
    max_conn_idle_time = override c.max_conn_idle_time parsed.max_conn_idle_time;
    health_check_period = override c.health_check_period parsed.health_check_period;
    rest = parsed.rest;
  }

  module _ (p : Platform) (env : Assoc Text) (windows : Bool) (open_file : Text → Option File)
      (parse : Text → Option (PgxConfig Rest)) where
    -- The password of the file, if one is named; else the empty one, which was tested.
    unfoldable pub pool_password : PoolConfig → Result PoolError Text
    pool_password c =
        if text_eq c.password_file []
        then ok []
        else read_password_file windows open_file c.password_file

    unfoldable pub parse_pool_config : PoolConfig → Result PoolError (PgxConfig Rest)
    parse_pool_config c =
        let database_url = trim_space c.database_url in
        do
          refuse_if (text_eq database_url []) url_required
          check_limits c
          check_variables env forbidden_variables
          check_pool_url p database_url
          parsed ← or_fail (parse database_url) parse_failed
          refuse_if (not (text_eq parsed.password [])) given_password
          password ← pool_password c
          ok (with_settings c password parsed)

    -- `OpenPool`: what it answers, and what has become of the pool. The functions say whether the
    -- making of the pool and the ping fail.
    unfoldable pub open_pool :
        (create_fails ping_fails : PgxConfig Rest → Bool)
        → PoolConfig
        → Result PoolError (PgxConfig Rest) × PoolState
    open_pool create_fails ping_fails c = elim (parse_pool_config c) [
      | err e ↦ (err e, not_made)
      | ok settings ↦
          if create_fails settings
          then (err create_failed, not_made)
          else if ping_fails settings
          then (err connect_failed, is_closed)
          else (ok settings, is_open)
    ]
