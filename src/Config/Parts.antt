-- ===== src/Config/Parts.antt =====
-- What the OIDC and the database configuration were made of, where one was loaded.
use a2a_red_panda_server_con.Prelude.{
  Text, text_eq, str, Assoc, ◌≡◌, refl, sym, subst, ◌≢◌, ◌⊎◌, inl, inr, false, ◌&&◌, ◌||◌, [], ◌==◌,
  Bool-cases, ok, length, length_not_zero, ◌>>◌, refuse_if, >>=-eq-ok, refuse_if-eq-ok,
  ok-injective, not, ◌∷◌, pos,
}
use a2a_red_panda_server_con.Config.{
  OidcConfig, no_oidc, oidc_pair, no_scopes, bad_tenant_claim, getenv, env_or_default, has_blank,
  split_csv, parse_positive_duration, is_local, DatabaseConfig, no_database, password_file_alone,
  relative_password_file, parse_int32,
}
use a2a_red_panda_server_con.Config.Database.{
  check_database_url, is_rooted, load_limits, load_database_config,
}
use a2a_red_panda_server_con.Config.Oidc.{
  dependent_keys, check_unset, check_algorithms, check_issuer, load_clock_skew, load_oidc_values,
  load_oidc_config,
}
use a2a_red_panda_server_con.Platform.{Platform}
use a2a_red_panda_server_con.Strings.{trim_space}

pub not_empty : (a : Text) → text_eq a [] ≡ false → a ≢ []
unfolding text_eq
not_empty [] h = cc
not_empty (x ∷ a) h = cc

both_given : (a b : Text) → (text_eq a [] || text_eq b []) ≡ false → (a ≢ []) × (b ≢ [])
unfolding text_eq
both_given [] b h = cc
both_given (x ∷ a) [] h = cc
both_given (x ∷ a) (y ∷ b) h = (cc, cc)

module _ (p : Platform) (env : Assoc Text) where
  -- What was read for a verifier, and what was tested of it.
  abbrev pub IsOidcLoaded : (environment : Text) → OidcConfig → Type 0
  IsOidcLoaded environment c =
      (c.issuer ≢ [])
      × (c.audience ≢ [])
      × (c.audience ≡ trim_space (getenv env (str "OIDC_AUDIENCE")))
      × (check_issuer p environment c.issuer ≡ ok tt)
      × (load_clock_skew p env ≡ ok c.clock_skew)
      × (parse_positive_duration p env (str "OIDC_HTTP_TIMEOUT") (str "10s") ≡ ok c.http_timeout)
      × (check_algorithms c.allowed_algorithms ≡ ok tt)
      × (c.required_scopes ≢ [])
      × (c.tenant_claim
          ≡ trim_space (env_or_default env (str "OIDC_TENANT_CLAIM") (str "tenant_id")))
      × ((text_eq c.tenant_claim [] || has_blank c.tenant_claim) ≡ false)
      × (c.allow_private_ips ≡ is_local environment)

  load_oidc_values-IsOidcLoaded :
      (environment issuer : Text) (c : OidcConfig)
      → issuer ≢ []
      → trim_space (getenv env (str "OIDC_AUDIENCE")) ≢ []
      → load_oidc_values p env environment issuer (trim_space (getenv env (str "OIDC_AUDIENCE")))
        ≡ ok c
      → IsOidcLoaded environment c
  unfolding load_oidc_values
  load_oidc_values-IsOidcLoaded environment issuer c given also h =
      let algorithms =
        split_csv (env_or_default env (str "OIDC_ALLOWED_ALGORITHMS") (str "RS256")) in
      let scopes = split_csv (env_or_default env (str "OIDC_REQUIRED_SCOPES") (str "a2a")) in
      let claim = trim_space (env_or_default env (str "OIDC_TENANT_CLAIM") (str "tenant_id")) in
      let (_, h0, h) = >>=-eq-ok (check_issuer p environment issuer) _ h in
      let (skew, h1, h) = >>=-eq-ok (load_clock_skew p env) _ h in
      let (timeout, h2, h) =
        >>=-eq-ok (parse_positive_duration p env (str "OIDC_HTTP_TIMEOUT") (str "10s")) _ h in
      let (_, h3, h) = >>=-eq-ok (check_algorithms algorithms) _ h in
      let (_, h4, h) = >>=-eq-ok (refuse_if (length scopes == 0) no_scopes) _ h in
      let (_, h5, h) =
        >>=-eq-ok (refuse_if (text_eq claim [] || has_blank claim) bad_tenant_claim) _ h in
      let some_scope = length_not_zero scopes (refuse_if-eq-ok (length scopes == 0) no_scopes h4) in
      let good_claim = refuse_if-eq-ok (text_eq claim [] || has_blank claim) bad_tenant_claim h5 in
      subst (IsOidcLoaded environment) (ok-injective h)
        (given, also, refl, h0, h1, h2, h3, some_scope, refl, good_claim, refl)

  pub load_oidc_config-IsOidcLoaded :
      (environment : Text) (c : OidcConfig)
      → load_oidc_config p env environment ≡ ok c
      → (c ≡ no_oidc) ⊎ IsOidcLoaded environment c
  unfolding load_oidc_config
  load_oidc_config-IsOidcLoaded environment c h =
      let issuer = trim_space (getenv env (str "OIDC_ISSUER")) in
      let audience = trim_space (getenv env (str "OIDC_AUDIENCE")) in
      elim (Bool-cases (text_eq issuer [] && text_eq audience [])) [
        | inl absent ↦
            (let h' : (check_unset env dependent_keys >> ok no_oidc) ≡ ok c = rw absent at h in
              inl (sym (ok-injective (>>=-eq-ok (check_unset env dependent_keys) _ h').2)))
        | inr given ↦
            (let h' : (refuse_if (text_eq issuer [] || text_eq audience []) oidc_pair
                    >> load_oidc_values p env environment issuer audience)
                  ≡ ok c =
                rw given at h in
              let (_, both, values) =
                >>=-eq-ok (refuse_if (text_eq issuer [] || text_eq audience []) oidc_pair) _ h' in
              let fine =
                refuse_if-eq-ok (text_eq issuer [] || text_eq audience []) oidc_pair both in
              inr (
                load_oidc_values-IsOidcLoaded environment issuer c
                  (both_given issuer audience fine).0 (both_given issuer audience fine).1 values))
      ]

  -- What was read for a pool, and what was tested of it.
  abbrev pub IsDatabaseLoaded : DatabaseConfig → Type 0
  IsDatabaseLoaded c =
      (c.url ≢ [])
      × (check_database_url p c.url ≡ ok tt)
      × ((not (text_eq c.password_file [])
            && not (p.is_abs c.password_file)
            && not (is_rooted c.password_file))
          ≡ false)
      × (parse_int32 env (str "DATABASE_MAX_CONNECTIONS") (pos 20) (pos 1) (pos 500)
          ≡ ok c.max_connections)
      × (parse_int32 env (str "DATABASE_MIN_CONNECTIONS") (pos 2) (pos 0) c.max_connections
          ≡ ok c.min_connections)
      × (parse_positive_duration p env (str "DATABASE_MAX_CONNECTION_LIFETIME") (str "1h")
          ≡ ok c.max_connection_life)
      × (parse_positive_duration p env (str "DATABASE_MAX_CONNECTION_IDLE") (str "15m")
          ≡ ok c.max_connection_idle)
      × (parse_positive_duration p env (str "DATABASE_HEALTH_CHECK_PERIOD") (str "30s")
          ≡ ok c.health_check_period)

  load_limits-IsDatabaseLoaded :
      (url file : Text) (c : DatabaseConfig)
      → url ≢ []
      → check_database_url p url ≡ ok tt
      → (not (text_eq file []) && not (p.is_abs file) && not (is_rooted file)) ≡ false
      → load_limits p env url file ≡ ok c
      → IsDatabaseLoaded c
  unfolding load_limits
  load_limits-IsDatabaseLoaded url file c given checked rooted h =
      let (max, h0, h) =
        >>=-eq-ok (parse_int32 env (str "DATABASE_MAX_CONNECTIONS") (pos 20) (pos 1) (pos 500)) _
          h in
      let (min, h1, h) =
        >>=-eq-ok (parse_int32 env (str "DATABASE_MIN_CONNECTIONS") (pos 2) (pos 0) max) _ h in
      let (life, h2, h) =
        >>=-eq-ok
          (parse_positive_duration p env (str "DATABASE_MAX_CONNECTION_LIFETIME") (str "1h")) _ h in
      let (idle, h3, h) =
        >>=-eq-ok (parse_positive_duration p env (str "DATABASE_MAX_CONNECTION_IDLE") (str "15m")) _
          h in
      let (period, h4, h) =
        >>=-eq-ok (parse_positive_duration p env (str "DATABASE_HEALTH_CHECK_PERIOD") (str "30s")) _
          h in
      subst IsDatabaseLoaded (ok-injective h) (given, checked, rooted, h0, h1, h2, h3, h4)

  pub load_database_config-IsDatabaseLoaded :
      (c : DatabaseConfig)
      → load_database_config p env ≡ ok c
      → (c ≡ no_database) ⊎ IsDatabaseLoaded c
  unfolding load_database_config
  load_database_config-IsDatabaseLoaded c h =
      let url = trim_space (getenv env (str "DATABASE_URL")) in
      let file = trim_space (getenv env (str "DATABASE_PASSWORD_FILE")) in
      elim (Bool-cases (text_eq url [])) [
        | inl absent ↦
            (let h' : (refuse_if (not (text_eq file [])) password_file_alone >> ok no_database)
                  ≡ ok c =
                rw absent at h in
              inl (
                sym (
                  ok-injective
                    (>>=-eq-ok (refuse_if (not (text_eq file [])) password_file_alone) _ h').2)))
        | inr given ↦
            (let relative = not (text_eq file []) && not (p.is_abs file) && not (is_rooted file) in
              let h' : (check_database_url p url
                    >> (refuse_if relative relative_password_file >> load_limits p env url file))
                  ≡ ok c =
                rw given at h in
              let (_, checked, h'') = >>=-eq-ok (check_database_url p url) _ h' in
              let (_, rooted, limits) =
                >>=-eq-ok (refuse_if relative relative_password_file) _ h'' in
              inr (
                load_limits-IsDatabaseLoaded url file c (not_empty url given) checked
                  (refuse_if-eq-ok relative relative_password_file rooted) limits))
      ]
