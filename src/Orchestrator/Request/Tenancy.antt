-- ===== src/Orchestrator/Request/Tenancy.antt =====
-- The tenant that the dispatcher is told is the verified one.
use a2a_red_panda_server_con.Prelude.{
  Text, str, ◌≡◌, refl, ◌∙◌, ap, ◌⊎◌, inl, inr, Option, some, [], ◌∷◌, arith, ok, lookup,
}
use a2a_red_panda_server_con.Auth.Interceptor.{
  User, Payload, before, request_tenant, other, send_message, get_task, list_tasks, cancel_task,
  subscribe_to_task, get_extended_agent_card, push_config, get_task_push_config,
  list_task_push_config, delete_task_push_config, text_attribute,
}
use a2a_red_panda_server_con.Auth.Interceptor.Tenancy.{before_tenant, IsOther}
use a2a_red_panda_server_con.Identity.{Identity}
use a2a_red_panda_server_con.Orchestrator.{Message}
use a2a_red_panda_server_con.Orchestrator.Request.{
  ExecutorContext, user_tenant, executor_tenant, dispatch_request, cancel_request,
}

module _ {P Metadata : Type 0} where
  tenant_of_user :
      (tenant : Text) (user : User) (context : ExecutorContext P Metadata)
      → context.user ≡ some user
      → lookup (str "tenant") user.attributes ≡ some (text_attribute tenant)
      → (context.tenant ≡ []) ⊎ (context.tenant ≡ tenant)
      → executor_tenant context ≡ tenant
  unfolding executor_tenant user_tenant
  tenant_of_user tenant user context given attribute (inl empty) =
      ground (arith, given, attribute, empty)
  tenant_of_user [] user context given attribute (inr same) = ground (arith, given, attribute, same)
  tenant_of_user (c ∷ tenant) user context given attribute (inr same) = ground (arith, same)

other_has_none : {R : Type 0} (payload : Payload R) → IsOther payload → request_tenant payload ≡ []
unfolding request_tenant
other_has_none (other r) h = refl
other_has_none (send_message t r) h = elim h [ ]
other_has_none (get_task t r) h = elim h [ ]
other_has_none (list_tasks t r) h = elim h [ ]
other_has_none (cancel_task t r) h = elim h [ ]
other_has_none (subscribe_to_task t r) h = elim h [ ]
other_has_none (get_extended_agent_card t r) h = elim h [ ]
other_has_none (push_config t r) h = elim h [ ]
other_has_none (get_task_push_config t r) h = elim h [ ]
other_has_none (list_task_push_config t r) h = elim h [ ]
other_has_none (delete_task_push_config t r) h = elim h [ ]

-- Where the interceptor has accepted a call, and the executor is run for it with the user that the
-- interceptor set and with no tenant or the one of the request that the interceptor passed on, what
-- the dispatcher is told, for a message as for a cancellation, is the tenant of the verified
-- identity.
pub dispatched_tenant :
    {P Metadata R : Type 0} (verified : Option Identity) (payload payload' : Payload R)
    (user : User) (context : ExecutorContext P Metadata) (message : Message P)
    → before verified payload ≡ ok (payload', user)
    → context.user ≡ some user
    → (context.tenant ≡ []) ⊎ (context.tenant ≡ request_tenant payload')
    → (identity : Identity) × (verified ≡ some identity)
      × ((dispatch_request context message).tenant ≡ identity.tenant)
      × ((cancel_request context).tenant ≡ identity.tenant)
unfolding dispatch_request cancel_request
dispatched_tenant verified payload payload' user context message accepted given named =
    let (identity, e, carried, name, attribute) =
      before_tenant verified payload payload' user accepted in
    let tenant : (context.tenant ≡ []) ⊎ (context.tenant ≡ identity.tenant) = elim named [
      | inl empty ↦ inl empty
      | inr same ↦ elim carried [
        | inl (o, kept) ↦ inl (same ∙ ap request_tenant kept ∙ other_has_none payload o)
        | inr t ↦ inr (same ∙ t)
      ]
    ] in
    let told = tenant_of_user identity.tenant user context given attribute tenant in
    (identity, e, told, told)
