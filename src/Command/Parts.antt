-- ===== src/Command/Parts.antt =====
-- What the authenticator and the store of the server's command are made of.
use a2a_red_panda_server_con.Prelude.{
  Text, Assoc, ◌≡◌, sym, ◌⊎◌, inl, inr, false, Option, none, some, Bool-cases, ok, >>=-eq-ok,
  ok-injective, text_eq, text_eq_iff, refl, ap, ◌∙◌, subst, [], err, Result, refuse_if,
  refuse_if-eq-ok, str,
}
use a2a_red_panda_server_con.Auth.Oidc.{wrap_error}
use a2a_red_panda_server_con.Auth.Oidc.Claims.{OidcVerifier, verify}
use a2a_red_panda_server_con.Auth.Oidc.New.{default_transport, new_oidc_verifier}
use a2a_red_panda_server_con.Auth.Oidc.New.Built.{IsBuilt, new_oidc_verifier-IsBuilt}
use a2a_red_panda_server_con.Auth.Oidc.Redirects.{wrap_error-eq-ok}
use a2a_red_panda_server_con.Auth.Scope.{Authenticator, new_authenticator}
use a2a_red_panda_server_con.Auth.Scope.Valid.{new_authenticator-eq-ok}
use a2a_red_panda_server_con.Command.{
  verifier_error, authenticator_error, build_authentication, pool_config_of, World, check_schema,
  database_unauthenticated, pool_error, schema_error, build_store, open_database,
}
use a2a_red_panda_server_con.Config.{OidcConfig, DatabaseConfig, enabled}
use a2a_red_panda_server_con.Server.Assembly.{TaskStore, given_store, is_absent}
use a2a_red_panda_server_con.Storage.Pool.{PgxConfig, PoolConfig}
use a2a_red_panda_server_con.Storage.Pool.Opened.{IsConfigured, open_pool-IsConfigured}

no_error : {E A : Type 0} (e : E) (a : A) → ◌≡◌ {A = Result E A} (err e) (ok a) → ⊥
no_error e a h = cc

present : (o : Option Authenticator) → is_absent o ≡ false → (a : Authenticator) × (o ≡ some a)
unfolding is_absent
present none h = cc
present (some a) h = (a, refl)

pub used_store :
    {S B : Type 0} (used : TaskStore S) (store : Option S) (settings : S)
    → store ≡ some settings
    → (B × (store ≡ none)) ⊎ ((given : S) × (store ≡ some given) × (used ≡ given_store given))
    → used ≡ given_store settings
used_store used store settings found (inl (_, absent)) = cc
used_store used store settings found (inr (given, same, is)) =
    (let equal : given ≡ settings = cc in is ∙ ap given_store equal)

module _ {Rest Schema Card : Type 0} (w : World Rest Schema Card) (env : Assoc Text) where
  -- The authenticator is the one of the OIDC configuration, over a verifier that was built for it.
  abbrev pub IsAuthenticator : OidcConfig → Authenticator → Type 0
  IsAuthenticator c a =
      (v : OidcVerifier) × IsBuilt w.platform w.discovery c v
      × (a.verifier ≡ verify w.numbers v w.now)
      × (a.issuer ≡ c.issuer)
      × (a.required_scopes ≡ c.required_scopes)

  -- What the pool is told is what the configuration has.
  abbrev pub IsPoolConfigOf : DatabaseConfig → PoolConfig → Type 0
  IsPoolConfigOf c k =
      (k.database_url ≡ c.url)
      × (k.password_file ≡ c.password_file)
      × (k.application_name ≡ str "bridge-a2a-server")
      × (k.max_conns ≡ c.max_connections)
      × (k.min_conns ≡ c.min_connections)
      × (k.max_conn_lifetime ≡ c.max_connection_life)
      × (k.max_conn_idle_time ≡ c.max_connection_idle)
      × (k.health_check_period ≡ c.health_check_period)

  -- The pool is open for the database's configuration, and its schema was verified.
  abbrev pub IsStore : DatabaseConfig → PgxConfig Rest → Type 0
  IsStore c settings =
      ((k : PoolConfig) × IsPoolConfigOf c k
        × IsConfigured w.platform env w.windows w.open_file w.parse k settings)
      × (check_schema w env settings ≡ ok tt)

  pub build_authentication_lem :
      (c : OidcConfig) (o : Option Authenticator)
      → build_authentication w.platform w.discovery w.numbers w.now c ≡ ok o
      → ((enabled c ≡ false) × (o ≡ none))
        ⊎ ((a : Authenticator) × (o ≡ some a) × IsAuthenticator c a)
  unfolding build_authentication
  build_authentication_lem c o h = elim (Bool-cases (enabled c)) [
    | inr off ↦ inl (off, (let h' : ok none ≡ ok o = rw off at h in sym (ok-injective h')))
    | inl on ↦
        (let built =
            wrap_error verifier_error
              (new_oidc_verifier w.platform w.discovery c (some default_transport)) in
          let (v, found, h) = >>=-eq-ok built _ (rw on at h) in
          let made =
            wrap_error authenticator_error
              (new_authenticator (some (verify w.numbers v w.now)) c.issuer c.required_scopes) in
          let (a, tested, h) = >>=-eq-ok made _ h in
          let (verifier, _, _, _, issuer, scopes) =
            (new_authenticator-eq-ok (some (verify w.numbers v w.now)) c.issuer c.required_scopes
                a).0
              (wrap_error-eq-ok authenticator_error
                (new_authenticator (some (verify w.numbers v w.now)) c.issuer c.required_scopes)
                tested) in
          inr (
            a,
            sym (ok-injective h),
            (
              v,
              new_oidc_verifier-IsBuilt w.platform w.discovery c (some default_transport) v (
                  wrap_error-eq-ok verifier_error
                    (new_oidc_verifier w.platform w.discovery c (some default_transport)) found),
              cc,
              issuer,
              scopes,
            ),
          ))
  ]

  open_database-IsConfigured :
      (c : PoolConfig) (settings : PgxConfig Rest)
      → open_database w env c ≡ ok settings
      → IsConfigured w.platform env w.windows w.open_file w.parse c settings
  unfolding open_database
  open_database-IsConfigured c settings h =
      elim (open_pool-IsConfigured w.platform env w.windows w.open_file w.parse w.create_fails
        w.ping_fails c) [
          | inl (found, e, configured) ↦
              (let same : found ≡ settings = ok-injective (sym (ap (λ r. r.0) e) ∙ h) in
                subst (IsConfigured w.platform env w.windows w.open_file w.parse c) same configured)
          | inr (reason, state, e, _) ↦
              absurd (no_error reason settings (sym (ap (λ r. r.0) e) ∙ h))
        ]

  pool_config_of-IsPoolConfigOf : (c : DatabaseConfig) → IsPoolConfigOf c (pool_config_of c)
  unfolding pool_config_of
  pool_config_of-IsPoolConfigOf c = (refl, refl, refl, refl, refl, refl, refl, refl)

  pub build_store_lem :
      (c : DatabaseConfig) (authentication : Option Authenticator) (o : Option (PgxConfig Rest))
      → build_store (open_database w env) (check_schema w env) c authentication ≡ ok o
      → ((c.url ≡ []) × (o ≡ none))
        ⊎ ((a : Authenticator) × (settings : PgxConfig Rest) × (authentication ≡ some a)
            × (o ≡ some settings)
            × IsStore c settings)
  unfolding build_store
  build_store_lem c authentication o h = elim (Bool-cases (text_eq c.url [])) [
    | inl off ↦ inl (
      (text_eq_iff c.url []).0 off,
      (let h' : ok none ≡ ok o = rw off at h in sym (ok-injective h')),
    )
    | inr on ↦
        (let (_, given, h) =
            >>=-eq-ok (refuse_if (is_absent authentication) database_unauthenticated) _
              (rw on at h) in
          let (settings, opened, h) =
            >>=-eq-ok (wrap_error pool_error (open_database w env (pool_config_of c))) _ h in
          let (_, checked, h) =
            >>=-eq-ok (wrap_error schema_error (check_schema w env settings)) _ h in
          let (a, authentic) =
            present authentication
              (refuse_if-eq-ok (is_absent authentication) database_unauthenticated given) in
          let open_settings =
            open_database-IsConfigured (pool_config_of c) settings
              (wrap_error-eq-ok pool_error (open_database w env (pool_config_of c)) opened) in
          inr (
            a,
            settings,
            authentic,
            sym (ok-injective h),
            (
              (pool_config_of c, pool_config_of-IsPoolConfigOf c, open_settings),
              wrap_error-eq-ok schema_error (check_schema w env settings) checked,
            ),
          ))
  ]
