-- ===== src/Orchestrator/Execute.antt =====
-- `Executor.Execute`. A consumer is a function from what it has been handed so far, the last item
-- included, to whether it wants more, which is what `yield` answers. The dispatcher's iterator is
-- the list of what it gives, and `fresh n` is the n-th artifact ID that the SDK makes up in the
-- call.
pub mod Stream
pub mod Ends
pub mod Artifacts
use a2a_red_panda_server_con.Prelude.{
  Text, str, ℕ, suc, Bool, true, false, Option, none, some, List, [], ◌∷◌, ◌++◌, length, ◌==◌,
  lookup, insert, Assoc, if◌then◌else◌,
}
use a2a_red_panda_server_con.Orchestrator.{
  Message, Output, Dispatched, output, failure, Event, submitted_task, status_update,
  artifact_created, artifact_updated, working, failed, completed, Item, event, problem,
  message_required,
}
use a2a_red_panda_server_con.Orchestrator.Request.{
  ExecutorContext, DispatchRequest, dispatch_request,
}

abbrev pub Consumer : Type 0 → Type 0
Consumer P = List (Item P) → Bool

-- `agentErrorMessage`
abbrev pub agent_error_message : Text
agent_error_message = str "execution failed"

-- The ID that a new artifact gets.
unfoldable pub new_artifact_id : (fresh : ℕ → Text) → ℕ → Text → Text
new_artifact_id fresh n key = if length key == 0 then fresh n else key

module _ {P : Type 0} (more : Consumer P) where
  -- `if !yield(item) { return }`, and what follows; the result is all that was handed over.
  unfoldable pub emit : Item P → List (Item P) → (List (Item P) → List (Item P)) → List (Item P)
  emit item handed rest =
      if more (handed ++ (item ∷ [])) then rest (handed ++ (item ∷ [])) else handed ++ (item ∷ [])

  module _ (fresh : ℕ → Text) where
    -- The loop over the dispatcher's outputs, with the map of artifacts, and what follows the loop.
    unfoldable pub dispatch_loop :
        Assoc Text → ℕ → List (Dispatched P) → List (Item P) → List (Item P)
    dispatch_loop artifacts n [] handed =
        emit (event (status_update completed none)) handed λ all. all
    dispatch_loop artifacts n (failure ∷ rest) handed =
        emit (event (status_update failed (some agent_error_message))) handed λ all. all
    dispatch_loop artifacts n (output o ∷ rest) handed =
        let skipped = dispatch_loop artifacts n rest handed in
        let id = new_artifact_id fresh n o.artifact_id in
        if length o.parts == 0 then skipped else elim (lookup o.artifact_id artifacts) [
          | none ↦
              emit (event (artifact_created id o.parts o.last_chunk)) handed
                (dispatch_loop (insert o.artifact_id id artifacts) (suc n) rest)
          | some known ↦
              emit (event (artifact_updated known o.parts o.last_chunk)) handed
                (dispatch_loop artifacts n rest)
        ]

    module _ {Metadata : Type 0} (dispatch : DispatchRequest P Metadata → List (Dispatched P)) where
      -- Behind the test of the message.
      unfoldable pub execute_message : ExecutorContext P Metadata → Message P → List (Item P)
      execute_message context message =
          let work = λ (handed : List (Item P)).
            emit (event (status_update working none)) handed
              (dispatch_loop [] 0 (dispatch (dispatch_request context message))) in
          if context.stored then work [] else emit (event (submitted_task message)) [] work

      unfoldable pub execute : ExecutorContext P Metadata → List (Item P)
      execute context = elim context.message [
        | none ↦ emit (problem message_required) [] λ all. all
        | some message ↦ execute_message context message
      ]
