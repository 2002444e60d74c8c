-- ===== src/Storage/Pool/Opened.antt =====
-- What a pool that was opened was made of, and what a loaded configuration is to it.
use a2a_red_panda_server_con.Prelude.{
  Text, text_eq, text_eq_iff, Assoc, ◌≡◌, refl, sym, subst, ◌≢◌, ◌⊎◌, inl, inr, Bool, not, Option,
  some, [], Bool-cases, not-false, ok, err, refuse_if, or_fail, >>=-eq-ok, refuse_if-eq-ok,
  or_fail-eq-ok, Result-cases, ok-injective, str, text_eq_refl, lookup, lookup-insert, ℕ, zero, suc,
  ◌≤◌, false, ◌&&◌, ◌||◌, arith, pos, negsuc, ℤ,
}
use a2a_red_panda_server_con.Platform.{Platform, int_lt}
use a2a_red_panda_server_con.Platform.Ranges.{IsPositive}
use a2a_red_panda_server_con.Storage.Pool.{
  PoolConfig, PgxConfig, PoolError, url_required, parse_failed, given_password, create_failed,
  connect_failed, PoolState, not_made, is_open, is_closed, File, forbidden_variables,
  check_variables, check_limits, check_pool_url, override, with_settings, pool_password,
  parse_pool_config, open_pool, negative_limit, min_above_max,
}
use a2a_red_panda_server_con.Storage.Pool.Password.{IsPasswordOf, read_password_file-IsPasswordOf}
use a2a_red_panda_server_con.Strings.{trim_space}

-- The result is the value where that is positive, and else the field.
abbrev pub IsOverride : (value field result : ℤ) → Type 0
IsOverride value field result =
    (IsPositive value × (result ≡ value)) ⊎ ((IsPositive value → ⊥) × (result ≡ field))

-- Two numbers of connections, neither of them negative; where the largest is 0 it is left open, and
-- else the least is not above it.
abbrev pub AreLimits : (max min : ℤ) → Type 0
AreLimits max min = (m : ℕ) × (n : ℕ) × (max ≡ pos m) × (min ≡ pos n) × ((m ≡ 0) ⊎ (n ≤ m))

override-IsOverride : (value field : ℤ) → IsOverride value field (override value field)
unfolding override int_lt
override-IsOverride (pos zero) field = inr (λ (n, same, positive). absurd (ground arith), refl)
override-IsOverride (pos (suc n)) field = inl ((suc n, refl, omega arith), ground arith)
override-IsOverride (negsuc n) field = inr (λ (n, same, positive). absurd (cc same), refl)

limits_of :
    (max min : ℤ)
    → (int_lt max (pos 0) || int_lt min (pos 0)) ≡ false
    → (int_lt (pos 0) max && int_lt max min) ≡ false
    → AreLimits max min
unfolding int_lt
limits_of (pos zero) (pos n) h k = (zero, n, refl, refl, inl refl)
limits_of (pos (suc m)) (pos n) h k = (suc m, n, refl, refl, inr (ground (arith, k)))
limits_of (pos m) (negsuc n) h k = absurd (ground (arith, h))
limits_of (negsuc m) min h k = absurd (ground (arith, h))

check_limits-AreLimits :
    (c : PoolConfig) → check_limits c ≡ ok tt → AreLimits c.max_conns c.min_conns
unfolding check_limits
check_limits-AreLimits c h =
    let (_, signs, order) =
      >>=-eq-ok
        (refuse_if (int_lt c.max_conns (pos 0) || int_lt c.min_conns (pos 0)) negative_limit) _ h in
    limits_of c.max_conns c.min_conns
      (refuse_if-eq-ok (int_lt c.max_conns (pos 0) || int_lt c.min_conns (pos 0)) negative_limit
        signs)
      (refuse_if-eq-ok (int_lt (pos 0) c.max_conns && int_lt c.max_conns c.min_conns) min_above_max
        order)

with_settings_name :
    {Rest : Type 0} (c : PoolConfig) (password : Text) (parsed : PgxConfig Rest)
    → c.application_name ≢ []
    → lookup (str "application_name") (with_settings c password parsed).runtime_params
      ≡ some c.application_name
unfolding with_settings
with_settings_name c password parsed named = ground (
  arith,
  named,
  text_eq_iff c.application_name [],
  lookup-insert (str "application_name") (str "application_name") c.application_name
      parsed.runtime_params,
  text_eq_refl (str "application_name"),
)

module _ {Rest : Type 0} (p : Platform) (env : Assoc Text) (windows : Bool)
    (open_file : Text → Option File) (parse : Text → Option (PgxConfig Rest)) where
  -- The settings have the password of the named file, or none; the URL gave no password. The
  -- numbers of connections that were given are not negative, and where there is a largest one the
  -- least one is not above it. Every positive value that was given is that of the settings, and so
  -- is the application's name; all else is as the URL had it.
  abbrev pub IsConfigured : PoolConfig → PgxConfig Rest → Type 0
  IsConfigured c settings =
      (parsed : PgxConfig Rest) × (parse (trim_space c.database_url) ≡ some parsed)
      × (parsed.password ≡ [])
      × ((c.password_file ≡ []) × (settings.password ≡ [])
          ⊎ IsPasswordOf windows open_file c.password_file settings.password)
      × AreLimits c.max_conns c.min_conns
      × IsOverride c.max_conns parsed.max_conns settings.max_conns
      × IsOverride c.min_conns parsed.min_conns settings.min_conns
      × IsOverride c.max_conn_lifetime parsed.max_conn_lifetime settings.max_conn_lifetime
      × IsOverride c.max_conn_idle_time parsed.max_conn_idle_time settings.max_conn_idle_time
      × IsOverride c.health_check_period parsed.health_check_period settings.health_check_period
      × (c.application_name ≢ []
          → lookup (str "application_name") settings.runtime_params ≡ some c.application_name)
      × (settings.rest ≡ parsed.rest)

  pool_password_lem :
      (c : PoolConfig) (password : Text)
      → pool_password p env windows open_file parse c ≡ ok password
      → (c.password_file ≡ []) × (password ≡ [])
        ⊎ IsPasswordOf windows open_file c.password_file password
  unfolding pool_password
  pool_password_lem c password h = elim (Bool-cases (text_eq c.password_file [])) [
    | inl absent ↦
        (let h' : ok [] ≡ ok password = rw absent at h in
          inl ((text_eq_iff c.password_file []).0 absent, sym (ok-injective h')))
    | inr named ↦
        inr (
          read_password_file-IsPasswordOf windows open_file c.password_file password
            (rw named at h))
  ]

  parse_pool_config-IsConfigured :
      (c : PoolConfig) (settings : PgxConfig Rest)
      → parse_pool_config p env windows open_file parse c ≡ ok settings
      → IsConfigured c settings
  unfolding parse_pool_config with_settings
  parse_pool_config-IsConfigured c settings h =
      let database_url = trim_space c.database_url in
      let (_, _, h) = >>=-eq-ok (refuse_if (text_eq database_url []) url_required) _ h in
      let (_, limits, h) = >>=-eq-ok (check_limits c) _ h in
      let (_, _, h) = >>=-eq-ok (check_variables env forbidden_variables) _ h in
      let (_, _, h) = >>=-eq-ok (check_pool_url p database_url) _ h in
      let (parsed, read, h) = >>=-eq-ok (or_fail (parse database_url) parse_failed) _ h in
      let (_, bare, h) =
        >>=-eq-ok (refuse_if (not (text_eq parsed.password [])) given_password) _ h in
      let (password, found, h) = >>=-eq-ok (pool_password p env windows open_file parse c) _ h in
      let without_password = (text_eq_iff parsed.password []).0 (
        not-false (text_eq parsed.password [])
          (refuse_if-eq-ok (not (text_eq parsed.password [])) given_password bare)) in
      subst (IsConfigured c) (ok-injective h) (
        parsed,
        or_fail-eq-ok (parse database_url) parse_failed read,
        without_password,
        pool_password_lem c password found,
        check_limits-AreLimits c limits,
        override-IsOverride c.max_conns parsed.max_conns,
        override-IsOverride c.min_conns parsed.min_conns,
        override-IsOverride c.max_conn_lifetime parsed.max_conn_lifetime,
        override-IsOverride c.max_conn_idle_time parsed.max_conn_idle_time,
        override-IsOverride c.health_check_period parsed.health_check_period,
        with_settings_name c password parsed,
        refl,
      )

  pub open_pool-IsConfigured :
      (create_fails ping_fails : PgxConfig Rest → Bool) (c : PoolConfig)
      → ((settings : PgxConfig Rest) × (open_pool p env windows open_file parse create_fails
              ping_fails c
            ≡ (ok settings, is_open))
          × IsConfigured c settings)
        ⊎ ((e : PoolError) × (state : PoolState) × (open_pool p env windows open_file parse
                create_fails ping_fails c
              ≡ (err e, state))
            × (state ≢ is_open))
  unfolding open_pool
  open_pool-IsConfigured create_fails ping_fails c =
      elim (Result-cases (parse_pool_config p env windows open_file parse c)) [
        | inr (e, refused) ↦ inr (e, not_made, simp (open_pool, refused), λ s. cc)
        | inl (settings, configured) ↦ elim (Bool-cases (create_fails settings)) [
          | inl fails ↦ inr (create_failed, not_made, simp (open_pool, configured, fails), λ s. cc)
          | inr made ↦ elim (Bool-cases (ping_fails settings)) [
            | inl fails ↦
                inr (connect_failed, is_closed, simp (open_pool, configured, made, fails), λ s. cc)
            | inr reached ↦ inl (
              settings,
              simp (open_pool, configured, made, reached),
              parse_pool_config-IsConfigured c settings configured,
            )
          ]
        ]
      ]
