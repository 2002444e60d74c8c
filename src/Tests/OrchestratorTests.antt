-- ===== src/Tests/OrchestratorTests.antt =====
-- The theorems on the executor and the error boundary at concrete calls. A part of a message is a
-- number.
use a2a_red_panda_server_con.Prelude.{
  Text, str, ℕ, ◌≡◌, refl, inl, Bool, true, false, Option, none, some, List, [], ◌∷◌, ◌++◌, ltb,
  if◌then◌else◌, ok, length, All,
}
use a2a_red_panda_server_con.Auth.Interceptor.{
  send_message, User, request_tenant, set_request_tenant, authenticated_user, before,
}
use a2a_red_panda_server_con.Identity.{Identity}
use a2a_red_panda_server_con.Orchestrator.{
  Message, Dispatched, output, failure, failed, completed, status_update, Item, event,
}
use a2a_red_panda_server_con.Orchestrator.Execute.{Consumer, agent_error_message, execute}
use a2a_red_panda_server_con.Orchestrator.Execute.Artifacts.{
  IsAnnounced, IsForeign, execute-IsAnnounced,
}
use a2a_red_panda_server_con.Orchestrator.Execute.Ends.{IsOngoing, execute_ends}
use a2a_red_panda_server_con.Orchestrator.Execute.Stream.{
  handed_of, has_failed, execution, execute_lem,
}
use a2a_red_panda_server_con.Orchestrator.Request.{
  ExecutorContext, DispatchRequest, dispatch_request, cancel_request,
}
use a2a_red_panda_server_con.Orchestrator.Request.Tenancy.{dispatched_tenant}
use a2a_red_panda_server_con.Server.ErrorBoundary.{
  GoError, go_error, nil, cons, sentinel, is_named, error_is, as_protocol, find_safe,
  protocol_safe_error, client_safe_error, is_internal_error, after,
}
use a2a_red_panda_server_con.Server.ErrorBoundary.Safe.{IsHandled, after-IsHandled}
use a2a_red_panda_server_con.Tests.Base.{alice}

abbrev greeting : Message ℕ
greeting = record { parts = 1 ∷ 2 ∷ [] }

abbrev caller : User
caller = authenticated_user alice

abbrev context : ExecutorContext ℕ ℕ
context = record {
  task_id = str "t1";
  context_id = str "c1";
  tenant = [];
  message = some greeting;
  metadata = 0;
  user = some caller;
  extensions = none;
  related_tasks = some (str "t0") ∷ none ∷ [];
  stored = false;
}

abbrev fresh_id : ℕ → Text
fresh_id n = 0 ∷ n ∷ []

abbrev chunk : Text → Bool → Dispatched ℕ
chunk id last = output (record { artifact_id = id; parts = 5 ∷ []; last_chunk = last })

abbrev chunks : List (Dispatched ℕ)
chunks =
    chunk (str "a") false
    ∷ chunk [] true
    ∷ chunk (str "a") true
    ∷ failure
    ∷ chunk (str "b") true
    ∷ []

abbrev dispatch_chunks : DispatchRequest ℕ ℕ → List (Dispatched ℕ)
dispatch_chunks request = chunks

-- A consumer that wants four items.
abbrev wants_four : Consumer ℕ
wants_four handed = ltb (length handed) 4

execute_example :
    execute wants_four fresh_id dispatch_chunks context
    ≡ handed_of wants_four [] (execution fresh_id dispatch_chunks context greeting)
execute_example = execute_lem wants_four fresh_id dispatch_chunks context

execute_ends_example :
    (front : List (Item ℕ)) × (execute (λ handed. true) fresh_id dispatch_chunks context
      ≡ front
        ++ (event (
              if has_failed chunks
              then status_update failed (some agent_error_message)
              else status_update completed none)
            ∷ []))
    × All IsOngoing front
execute_ends_example = execute_ends fresh_id dispatch_chunks context greeting refl

IsForeign-ids : All (IsForeign fresh_id) chunks
unfolding str
IsForeign-ids = (λ m. cc, (λ m. cc, (λ m. cc, (tt, (λ m. cc, tt)))))

execute-IsAnnounced_example : IsAnnounced [] (execute wants_four fresh_id dispatch_chunks context)
execute-IsAnnounced_example =
    execute-IsAnnounced fresh_id dispatch_chunks wants_four context greeting refl IsForeign-ids

accepted_call :
    before {R = ℕ} (some alice) (send_message [] 7) ≡ ok (send_message (str "acme") 7, caller)
unfolding before request_tenant set_request_tenant
accepted_call = refl

dispatched_tenant_example :
    (identity : Identity) × (◌≡◌ {A = Option Identity} (some alice) (some identity))
    × ((dispatch_request context greeting).tenant ≡ identity.tenant)
    × ((cancel_request context).tenant ≡ identity.tenant)
dispatched_tenant_example =
    dispatched_tenant {R = ℕ} (some alice) (send_message [] 7) (send_message (str "acme") 7) caller
      context greeting accepted_call refl (inl refl)

-- A protocol error that wraps the error of a missing task, inside another error.
abbrev missing_task : GoError
missing_task = go_error none false (cons (go_error none true (cons (sentinel 8) nil)) nil)

after-IsHandled_example :
    (shown : GoError) × (l : List GoError) × (after (some missing_task) ≡ (some shown, l))
    × IsHandled missing_task shown l
after-IsHandled_example = after-IsHandled missing_task

missing_task_shown :
    after (some missing_task) ≡ (some (go_error none true (cons (sentinel 8) nil)), [])
unfolding after client_safe_error protocol_safe_error as_protocol error_is is_named find_safe
    is_internal_error
missing_task_shown = refl
