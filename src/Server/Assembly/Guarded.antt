-- ===== src/Server/Assembly/Guarded.antt =====
-- Who reaches a server that was assembled.
use a2a_red_panda_server_con.Prelude.{
  Text, ℕ, ◌≤◌, ◌≡◌, refl, sym, ◌≢◌, ◌⊎◌, inl, inr, true, none, some, [], ◌∷◌, Bool-cases,
  Option-cases, ok, pos, ok-injective, ℤ, ap, subst, false, ◌&&◌, not, Option, arith, not-false,
  Result, ◌>>◌, refuse_if, or_fail, >>=-eq-ok, refuse_if-eq-ok, str, text_eq_iff, text_eq_refl,
  lookup, List,
}
use a2a_red_panda_server_con.Auth.Oidc.{wrap_error}
use a2a_red_panda_server_con.Auth.Scope.{Authenticator}
use a2a_red_panda_server_con.Config.{is_local, Config}
use a2a_red_panda_server_con.Platform.{int_lt}
use a2a_red_panda_server_con.Platform.Ranges.{IsPositive, int_lt-IsPositive}
use a2a_red_panda_server_con.Server.Assembly.{
  Dependencies, anonymous, TaskStore, given_store, memory_store, Assembled, or_default,
  interceptors_of, choose_store, card_error, no_dispatcher, store_needed, authentication_needed,
  StoreOwner, call_user, is_absent, new_server, protocol_version, identity_binding, error_boundary,
  Layer, authenticate, body_limit, service_parameters, card_handler, rest_handler, serve, layers_of,
  routes_of,
}
use a2a_red_panda_server_con.Server.Card.{scheme_name, AgentCard, CardError, configure_agent_card}

or_default-IsPositive : (n : ℕ) (value : ℤ) → 1 ≤ n → IsPositive (or_default (pos n) value)
unfolding or_default
or_default-IsPositive n value h = elim (Bool-cases (int_lt (pos 0) value)) [
  | inl positive ↦ rw positive (int_lt-IsPositive value (ap not positive))
  | inr unset ↦ rw unset (n, refl, h)
]

absent_local :
    (o : Option Authenticator) (environment : Text)
    → o ≡ none
    → (is_absent o && not (is_local environment)) ≡ false
    → is_local environment ≡ true
unfolding is_absent
absent_local none environment h fine = not-false (is_local environment) fine
absent_local (some a) environment h fine = cc

routed :
    {Rest : Type 0} (card_path : Text) (card : AgentCard Rest) (layers : List Layer) (path : Text)
    → card_path ≢ str "/"
    → let routes = routes_of card_path card layers in
      (serve routes card_path ≡ some (card_handler card))
      × (path ≢ card_path → serve routes path ≡ some (rest_handler layers))
unfolding serve lookup
routed card_path card layers path apart = (
  ground (arith, text_eq_refl card_path),
  λ away. ground (
    arith,
    text_eq_iff card_path path,
    text_eq_iff (str "/") path,
    text_eq_iff card_path (str "/"),
    text_eq_refl (str "/"),
  ),
)

module _ {D S : Type 0} where
  choose_store_lem :
      (environment : Text) (dependencies : Dependencies D S) (store : TaskStore S)
      → choose_store environment dependencies ≡ ok store
      → ((is_local environment ≡ true) × (dependencies.task_store ≡ none)
          ⊎ ((given : S) × (dependencies.task_store ≡ some given) × (store ≡ given_store given)))
        × ((a : Authenticator)
            → dependencies.authentication ≡ some a
            → store ≢ memory_store anonymous)
  unfolding choose_store
  choose_store_lem environment dependencies store h = elim (Option-cases dependencies.task_store) [
    | inr (given, e) ↦
        (let h' : ok (given_store given) ≡ ok store = rw e at h in
          let same : given_store given ≡ store = ok-injective h' in
          (inr (given, e, sym same), λ a authentic named. cc))
    | inl absent ↦
        (let owner : StoreOwner = elim dependencies.authentication [
          | none ↦ anonymous
          | some a ↦ call_user
        ] in
          let h' : (refuse_if (not (is_local environment)) store_needed >> ok (memory_store owner))
              ≡ ok store =
            rw absent at h in
          let (_, near, h'') =
            >>=-eq-ok (refuse_if (not (is_local environment)) store_needed) _ h' in
          (
            inl (
              not-false (is_local environment)
                  (refuse_if-eq-ok (not (is_local environment)) store_needed near),
              absent,
            ),
            λ a authentic named.
                (let same : memory_store call_user ≡ store = rw authentic at (ok-injective h'') in
                  cc),
          ))
  ]

  module _ {Rest : Type 0} where
    -- The card's path is answered with the card, and every other path by the REST handler behind
    -- the layers.
    abbrev pub IsRouted : (card_path : Text) → List Layer → Assembled D S Rest → Type 0
    IsRouted card_path layers s =
        (serve s.routes card_path ≡ some (card_handler s.card))
        × ((path : Text) → path ≢ card_path → serve s.routes path ≡ some (rest_handler layers))

    -- What stands between a request and the tasks: without an authenticator the limit on bodies
    -- and the normalization, and only in a local environment; with one first its middleware, and
    -- for each call the binding of the identity and a store that tells owners apart, and the card
    -- asks for the authenticator's scopes.
    abbrev pub IsProtected :
        (environment card_path : Text)
        → Dependencies D S
        → (limit : ℤ) → Assembled D S Rest
        → Type 0
    IsProtected environment card_path dependencies limit s =
        ((dependencies.authentication ≡ none)
          × (is_local environment ≡ true)
          × IsRouted card_path (body_limit limit ∷ service_parameters ∷ []) s
          × (s.interceptors ≡ protocol_version ∷ error_boundary ∷ []))
        ⊎ ((a : Authenticator) × (dependencies.authentication ≡ some a)
            × IsRouted card_path (authenticate a ∷ body_limit limit ∷ service_parameters ∷ []) s
            × (s.interceptors ≡ protocol_version ∷ identity_binding ∷ error_boundary ∷ [])
            × (s.card.security_requirements ≡ (scheme_name, a.required_scopes) ∷ [])
            × (s.store ≢ memory_store anonymous))

    -- The store is the one that was given, and only in a local environment may there be none.
    abbrev pub IsGuarded :
        (environment card_path : Text) → Dependencies D S → Assembled D S Rest → Type 0
    IsGuarded environment card_path dependencies s =
        ((limit : ℤ) × IsPositive limit × IsProtected environment card_path dependencies limit s)
        × ((is_local environment ≡ true) × (dependencies.task_store ≡ none)
            ⊎ ((given : S) × (dependencies.task_store ≡ some given)
                × (s.store ≡ given_store given)))
        × IsPositive s.keep_alive
        × IsPositive s.agent_inactivity

    -- Where the agent card's path is not `/`: a server is assembled only so that outside of a
    -- local environment there are an authenticator and a given store, and a store that is given is
    -- used. The card's path is answered with the card, with no authentication. With an
    -- authenticator every other path is answered by the REST handler behind the authenticator's
    -- middleware, the limit on bodies and the normalization, in that order, and each call passes
    -- the protocol's version, the binding of its identity and the error boundary, in that order;
    -- the card asks for its scopes, and no store takes all calls for one owner's. Without one the
    -- middleware and the binding are left out. The intervals and the limit on bodies are positive.
    pub new_server-IsGuarded :
        (card_path : Text)
        (load_card : (path public_base_url : Text) → Result CardError (AgentCard Rest)) (c : Config)
        (dependencies : Dependencies D S) (s : Assembled D S Rest)
        → card_path ≢ str "/"
        → new_server card_path load_card c dependencies ≡ ok s
        → IsGuarded c.environment card_path dependencies s
    unfolding new_server configure_agent_card layers_of interceptors_of
    new_server-IsGuarded card_path load_card c dependencies s apart h =
        let authentication = dependencies.authentication in
        let limit = or_default (pos 1048576) c.max_request_bytes in
        let (loaded, _, h) =
          >>=-eq-ok (wrap_error card_error (load_card c.agent_card_path c.public_base_url)) _ h in
        let (dispatcher, _, h) = >>=-eq-ok (or_fail dependencies.dispatcher no_dispatcher) _ h in
        let (store, chosen, h) = >>=-eq-ok (choose_store c.environment dependencies) _ h in
        let (_, near, h) =
          >>=-eq-ok
            (refuse_if (is_absent authentication && not (is_local c.environment))
              authentication_needed)
            _ h in
        let (kept, scoped) = choose_store_lem c.environment dependencies store chosen in
        let fine =
          refuse_if-eq-ok (is_absent authentication && not (is_local c.environment))
            authentication_needed near in
        subst (IsGuarded c.environment card_path dependencies) (ok-injective h) (
          (
            limit,
            or_default-IsPositive 1048576 c.max_request_bytes (omega arith),
            elim (Option-cases authentication) [
              | inl absent ↦ inl (
                absent,
                absent_local authentication c.environment absent fine,
                rw absent (
                  (routed card_path loaded (body_limit limit ∷ service_parameters ∷ []) [] apart).0,
                  λ path.
                      (routed card_path loaded (body_limit limit ∷ service_parameters ∷ []) path
                        apart).1,
                ),
                rw absent refl,
              )
              | inr (a, authentic) ↦
                  (let layers = authenticate a ∷ body_limit limit ∷ service_parameters ∷ [] in
                    let card = configure_agent_card a loaded in
                    inr (
                      a,
                      authentic,
                      rw authentic (
                        (routed card_path card layers [] apart).0,
                        λ path. (routed card_path card layers path apart).1,
                      ),
                      rw authentic refl,
                      rw authentic refl,
                      scoped a authentic,
                    ))
            ],
          ),
          kept,
          or_default-IsPositive 15000000000 c.keep_alive (omega arith),
          or_default-IsPositive 300000000000 c.agent_inactivity (omega arith),
        )
