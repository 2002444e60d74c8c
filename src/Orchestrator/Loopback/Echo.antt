-- ===== src/Orchestrator/Loopback/Echo.antt =====
-- What the server does with a message, where the loopback dispatcher is its dispatcher.
use a2a_red_panda_server_con.Prelude.{
  Text, ℕ, true, none, some, lookup, [], ◌∷◌, ◌++◌, if◌then◌else◌, ◌≡◌, ◌∙◌, Bool-cases, inl, inr,
  ap,
}
use a2a_red_panda_server_con.Orchestrator.{
  Message, submitted_task, status_update, artifact_created, working, completed, event,
}
use a2a_red_panda_server_con.Orchestrator.Execute.{Consumer, execute, new_artifact_id}
use a2a_red_panda_server_con.Orchestrator.Execute.Stream.{
  handed_of, outputs_of, has_failed, artifact_events, execution, execute_lem,
}
use a2a_red_panda_server_con.Orchestrator.Loopback.{texts_of, loopback_message, loopback_dispatch}
use a2a_red_panda_server_con.Orchestrator.Request.{ExecutorContext, dispatch_request}

-- With the loopback dispatcher a message is answered by one artifact of one part, the accepted
-- text with the texts of the message behind it, and the completed status; a consumer is handed of
-- it what it wants.
pub execute-loopback_dispatch :
    {P Metadata : Type 0} (text : P → Text) (text_part : Text → P) (more : Consumer P)
    (fresh : ℕ → Text) (context : ExecutorContext P Metadata) (message : Message P)
    → context.message ≡ some message
    → execute more fresh (loopback_dispatch text text_part) context
      ≡ handed_of more [] (
          (if context.stored then [] else event (submitted_task message) ∷ [])
          ++ (event (status_update working none)
              ∷ event (
                  artifact_created
                    (fresh 0)
                    (text_part (loopback_message text (texts_of text message.parts)) ∷ [])
                    true)
              ∷ event (status_update completed none)
              ∷ []))
unfolding execution loopback_dispatch dispatch_request outputs_of has_failed artifact_events
    new_artifact_id lookup
execute-loopback_dispatch text text_part more fresh context message given =
    execute_lem more fresh (loopback_dispatch text text_part) context
    ∙ ap (handed_of more []) (elim (Bool-cases context.stored) [
      | inl old ↦ simp (given, old)
      | inr new ↦ simp (given, new)
    ])
