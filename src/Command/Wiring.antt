-- ===== src/Command/Wiring.antt =====
-- What is served when the server's command runs.
use a2a_red_panda_server_con.Prelude.{Text, Assoc, ◌≡◌, ◌⊎◌, false, ok, true, [], ◌∷◌, ℤ}
use a2a_red_panda_server_con.Auth.Scope.{Authenticator}
use a2a_red_panda_server_con.Command.{World, Loopback}
use a2a_red_panda_server_con.Command.Parts.{IsAuthenticator, IsStore}
use a2a_red_panda_server_con.Config.{enabled, Config, is_local}
use a2a_red_panda_server_con.Config.Load.{load}
use a2a_red_panda_server_con.Server.Assembly.{
  given_store, Assembled, protocol_version, identity_binding, error_boundary, authenticate,
  body_limit, service_parameters,
}
use a2a_red_panda_server_con.Server.Assembly.Guarded.{IsRouted}
use a2a_red_panda_server_con.Storage.Pool.{PgxConfig}

module _ {Rest Schema Card : Type 0} (w : World Rest Schema Card) (env : Assoc Text) where
  -- With an authenticator the card's path is answered with the card, and any other by the REST
  -- handler behind the middleware; the calls' identities are bound.
  abbrev pub IsAuthenticated : Assembled Loopback (PgxConfig Rest) Card → Authenticator → Type 0
  IsAuthenticated s a =
      (limit : ℤ) × IsRouted w.card_path
        (authenticate a ∷ body_limit limit ∷ service_parameters ∷ []) s
      × (s.interceptors ≡ protocol_version ∷ identity_binding ∷ error_boundary ∷ [])

  -- Without one no path's handler authenticates.
  abbrev pub IsOpen : Assembled Loopback (PgxConfig Rest) Card → Type 0
  IsOpen s =
      (limit : ℤ) × IsRouted w.card_path (body_limit limit ∷ service_parameters ∷ []) s
      × (s.interceptors ≡ protocol_version ∷ error_boundary ∷ [])

  -- What a server that is run is made of.
  abbrev pub IsRunning : Assembled Loopback (PgxConfig Rest) Card → Type 0
  IsRunning s =
      (c : Config) × (load w.platform env ≡ ok c)
      × (is_local c.environment ≡ true)
      × (((enabled c.oidc ≡ false) × (c.database.url ≡ []) × IsOpen s)
          ⊎ ((a : Authenticator) × IsAuthenticator w env c.oidc a
              × IsAuthenticated s a
              × ((c.database.url ≡ [])
                  ⊎ ((settings : PgxConfig Rest) × (s.store ≡ given_store settings)
                      × IsStore w env c.database settings))))
