-- ===== src/Auth/Interceptor.antt =====
-- internal/auth/auth.go: `identityInterceptor.Before`, `requestTenant` and `setRequestTenant`.
-- A typed request of the SDK is one of ten kinds that carry a tenant, or another one; `R` is what
-- else it holds, which this code does not read.
pub mod Tenancy
use a2a_red_panda_server_con.Prelude.{
  Text, ℕ, Bool, true, false, ◌&&◌, not, Assoc, Option, none, some, List, [], ◌∷◌, str, length,
  text_eq, ◌==◌, if◌then◌else◌, Result, ok, err, ◌>>=◌, ◌>>◌, refuse_if, or_fail,
}
use a2a_red_panda_server_con.Identity.{Identity, owner_key}

pub data Payload (R : Type 0) : Type 0 where
  send_message get_task list_tasks cancel_task subscribe_to_task : Text → R → Payload R
  get_extended_agent_card push_config get_task_push_config : Text → R → Payload R
  list_task_push_config delete_task_push_config : Text → R → Payload R
  other : R → Payload R

-- The values that the attributes of a call's user hold.
pub data Attribute : Type 0 where
  text_attribute : Text → Attribute
  texts_attribute : List Text → Attribute

pub record User : Type 0 where
  pub name : Text
  pub attributes : Assoc Attribute

pub data CallError : Type 0 where
  unauthenticated unauthorized : CallError

module _ {R : Type 0} where
  unfoldable pub request_tenant : Payload R → Text
  request_tenant (send_message t r) = t
  request_tenant (get_task t r) = t
  request_tenant (list_tasks t r) = t
  request_tenant (cancel_task t r) = t
  request_tenant (subscribe_to_task t r) = t
  request_tenant (get_extended_agent_card t r) = t
  request_tenant (push_config t r) = t
  request_tenant (get_task_push_config t r) = t
  request_tenant (list_task_push_config t r) = t
  request_tenant (delete_task_push_config t r) = t
  request_tenant (other r) = []

  unfoldable pub set_request_tenant : Text → Payload R → Payload R
  set_request_tenant tenant (send_message t r) = send_message tenant r
  set_request_tenant tenant (get_task t r) = get_task tenant r
  set_request_tenant tenant (list_tasks t r) = list_tasks tenant r
  set_request_tenant tenant (cancel_task t r) = cancel_task tenant r
  set_request_tenant tenant (subscribe_to_task t r) = subscribe_to_task tenant r
  set_request_tenant tenant (get_extended_agent_card t r) = get_extended_agent_card tenant r
  set_request_tenant tenant (push_config t r) = push_config tenant r
  set_request_tenant tenant (get_task_push_config t r) = get_task_push_config tenant r
  set_request_tenant tenant (list_task_push_config t r) = list_task_push_config tenant r
  set_request_tenant tenant (delete_task_push_config t r) = delete_task_push_config tenant r
  set_request_tenant tenant (other r) = other r

-- `a2asrv.NewAuthenticatedUser(OwnerKey(identity), …)`
unfoldable pub authenticated_user : Identity → User
authenticated_user identity = record {
  name = owner_key identity;
  attributes =
      (str "issuer", text_attribute identity.issuer)
      ∷ (str "subject", text_attribute identity.subject)
      ∷ (str "tenant", text_attribute identity.tenant)
      ∷ (str "scopes", texts_attribute identity.scopes)
      ∷ [];
}

-- The identity is the one of the context, if there is one. The result is the request with its
-- tenant written and the user that the call is given.
unfoldable pub before :
    {R : Type 0} → Option Identity → Payload R → Result CallError (Payload R × User)
before context payload = do
  identity ← or_fail context unauthenticated
  let tenant = request_tenant payload
  refuse_if (not (length tenant == 0) && not (text_eq tenant identity.tenant)) unauthorized
  ok (set_request_tenant identity.tenant payload, authenticated_user identity)
