-- ===== src/Orchestrator/Cancel.antt =====
-- `Executor.Cancel`, and `NewExecutor`. The dispatcher's `Cancel` is a function from the request to
-- whether it fails.
use a2a_red_panda_server_con.Prelude.{Bool, Option, none, List, [], if◌then◌else◌, Result, or_fail}
use a2a_red_panda_server_con.Orchestrator.{
  status_update, canceled, Item, event, problem, ExecutorError, dispatcher_required, internal_error,
}
use a2a_red_panda_server_con.Orchestrator.Execute.{Consumer, emit}
use a2a_red_panda_server_con.Orchestrator.Request.{ExecutorContext, CancelRequest, cancel_request}

-- A nil dispatcher is `none`; the executor is its dispatcher, the logger is left out.
unfoldable pub new_executor : {D : Type 0} → Option D → Result ExecutorError D
new_executor dispatcher = or_fail dispatcher dispatcher_required

unfoldable pub cancel :
    {P Metadata : Type 0}
    → Consumer P
    → (CancelRequest → Bool)
    → ExecutorContext P Metadata
    → List (Item P)
cancel more cancel_fails context =
    if cancel_fails (cancel_request context)
    then emit more (problem internal_error) [] (λ all. all)
    else emit more (event (status_update canceled none)) [] (λ all. all)
