-- ===== src/Server/Assembly.antt =====
-- internal/server/server.go: what `New` makes of the configuration and the dependencies.
pub mod Guarded
use a2a_red_panda_server_con.Prelude.{
  ok, ◌>>◌, ◌>>=◌, Text, Bool, true, false, ◌&&◌, not, Option, none, some, List, [], ◌∷◌,
  if◌then◌else◌, pos, Result, refuse_if, or_fail, ℤ, str, Assoc, lookup,
}
use a2a_red_panda_server_con.Auth.Oidc.{wrap_error}
use a2a_red_panda_server_con.Auth.Scope.{Authenticator}
use a2a_red_panda_server_con.Config.{Config, is_local}
use a2a_red_panda_server_con.Platform.{int_lt}
use a2a_red_panda_server_con.Server.Card.{AgentCard, CardError, configure_agent_card}

-- A nil dependency is `none`; `D` is a dispatcher and `S` a task store.
pub record Dependencies (D S : Type 0) : Type 0 where
  pub dispatcher : Option D
  pub task_store : Option S
  pub authentication : Option Authenticator

pub data ServerError : Type 0 where
  card_error : CardError → ServerError
  no_dispatcher store_needed authentication_needed : ServerError

-- Whose tasks an in-memory store tells apart: nobody's, or those of the call's user.
pub data StoreOwner : Type 0 where
  anonymous call_user : StoreOwner

pub data TaskStore (S : Type 0) : Type 0 where
  given_store : S → TaskStore S
  memory_store : StoreOwner → TaskStore S

pub data CallInterceptor : Type 0 where
  protocol_version identity_binding error_boundary : CallInterceptor

-- What stands before the SDK's REST handler: `Authenticator.Middleware`, `limitRequestBody` and
-- `normalizeServiceParameters`.
pub data Layer : Type 0 where
  authenticate : Authenticator → Layer
  body_limit : ℤ → Layer
  service_parameters : Layer

-- The SDK's handler of the agent card, or its REST handler behind layers, the outermost one first.
pub data Handler (Rest : Type 0) : Type 0 where
  card_handler : AgentCard Rest → Handler Rest
  rest_handler : List Layer → Handler Rest

-- The assembled server: what the SDK's request handler is made of, and the routes of the mux.
pub record Assembled (D S Rest : Type 0) : Type 0 where
  pub card : AgentCard Rest
  pub dispatcher : D
  pub store : TaskStore S
  pub interceptors : List CallInterceptor
  pub keep_alive : ℤ
  pub agent_inactivity : ℤ
  pub routes : Assoc (Handler Rest)

-- `ServeMux` on a path in its plain form: the pattern that is this path, or else the one that is
-- `/`.
unfoldable pub serve :
    {Rest : Type 0} → Assoc (Handler Rest) → (path : Text) → Option (Handler Rest)
serve routes path = elim (lookup path routes) [
  | some handler ↦ some handler
  | none ↦ lookup (str "/") routes
]

-- The two calls of `mux.Handle`.
abbrev pub routes_of :
    {Rest : Type 0} → (card_path : Text) → AgentCard Rest → List Layer → Assoc (Handler Rest)
routes_of card_path card layers =
    (card_path, card_handler card) ∷ (str "/", rest_handler layers) ∷ []

-- `protectedHandler`, wrapped step by step.
unfoldable pub layers_of : Option Authenticator → (limit : ℤ) → List Layer
layers_of authentication limit =
    let limited = body_limit limit ∷ service_parameters ∷ [] in
    elim authentication [ none ↦ limited | some a ↦ authenticate a ∷ limited ]

-- `if value <= 0 { value = fallback }`
unfoldable pub or_default : (fallback value : ℤ) → ℤ
or_default fallback value = if int_lt (pos 0) value then value else fallback

unfoldable pub interceptors_of : Option Authenticator → List CallInterceptor
interceptors_of none = protocol_version ∷ error_boundary ∷ []
interceptors_of (some a) = protocol_version ∷ identity_binding ∷ error_boundary ∷ []

unfoldable pub is_absent : Option Authenticator → Bool
is_absent none = true
is_absent (some a) = false

unfoldable pub choose_store :
    {D S : Type 0} (environment : Text) → Dependencies D S → Result ServerError (TaskStore S)
choose_store environment dependencies = elim dependencies.task_store [
  | some store ↦ ok (given_store store)
  | none ↦
      (refuse_if (not (is_local environment)) store_needed
        >> ok (
            memory_store
              (elim dependencies.authentication [ none ↦ anonymous | some a ↦ call_user ])))
]

module _ {D S Rest : Type 0} where
  -- `card_path` is the SDK's `WellKnownAgentCardPath`, and `load_card` is `loadAgentCard` over the
  -- file system.
  unfoldable pub new_server :
      (card_path : Text)
      → (load_card : (path public_base_url : Text) → Result CardError (AgentCard Rest)) → Config
      → Dependencies D S
      → Result ServerError (Assembled D S Rest)
  new_server card_path load_card c dependencies = do
    loaded ← wrap_error card_error (load_card c.agent_card_path c.public_base_url)
    dispatcher ← or_fail dependencies.dispatcher no_dispatcher
    store ← choose_store c.environment dependencies
    refuse_if (is_absent dependencies.authentication && not (is_local c.environment))
        authentication_needed
    let card : AgentCard Rest = elim dependencies.authentication [
      | none ↦ loaded
      | some a ↦ configure_agent_card a loaded
    ]
    let limit = or_default (pos 1048576) c.max_request_bytes
    ok (record {
      card = card;
      dispatcher = dispatcher;
      store = store;
      interceptors = interceptors_of dependencies.authentication;
      keep_alive = or_default (pos 15000000000) c.keep_alive;
      agent_inactivity = or_default (pos 300000000000) c.agent_inactivity;
      routes = routes_of card_path card (layers_of dependencies.authentication limit);
    })
