-- ===== src/Orchestrator/Execute/Ends.antt =====
-- An execution that is consumed to its end ends with one final status.
use mathlib.Core.List.{append_assoc, append-nil}
use a2a_red_panda_server_con.Prelude.{
  Text, ℕ, suc, true, none, some, List, [], ◌∷◌, ◌++◌, map, if◌then◌else◌, ◌≡◌, sym, ◌∙◌, arith,
  Bool-cases, inl, inr, All, lookup, insert, Option-cases, Assoc,
}
use a2a_red_panda_server_con.Orchestrator.{
  Message, Output, Dispatched, submitted_task, status_update, artifact_created, artifact_updated,
  working, failed, completed, canceled, Item, event, problem,
}
use a2a_red_panda_server_con.Orchestrator.Execute.{execute, new_artifact_id, agent_error_message}
use a2a_red_panda_server_con.Orchestrator.Execute.Stream.{
  handed_of, outputs_of, has_failed, artifact_events, execution, execute_lem,
}
use a2a_red_panda_server_con.Orchestrator.Request.{
  ExecutorContext, DispatchRequest, dispatch_request,
}

-- An item after which the task is still open.
abbrev pub IsOngoing : {P : Type 0} → Item P → Type 0
IsOngoing (event (submitted_task m)) = Unit
IsOngoing (event (status_update working m)) = Unit
IsOngoing (event (status_update failed m)) = ⊥
IsOngoing (event (status_update canceled m)) = ⊥
IsOngoing (event (status_update completed m)) = ⊥
IsOngoing (event (artifact_created id parts last)) = Unit
IsOngoing (event (artifact_updated id parts last)) = Unit
IsOngoing (problem e) = ⊥

module _ {P : Type 0} where
  handed_of_all :
      (handed items : List (Item P)) → handed_of (λ h. true) handed items ≡ handed ++ items
  unfolding handed_of
  handed_of_all handed [] = sym (append-nil handed)
  handed_of_all handed (item ∷ items) =
      handed_of_all (handed ++ (item ∷ [])) items ∙ append_assoc handed (item ∷ []) items

  artifacts-IsOngoing :
      (fresh : ℕ → Text) (artifacts : Assoc Text) (n : ℕ) (os : List (Output P))
      → All IsOngoing (map event (artifact_events fresh artifacts n os))
  unfolding artifact_events
  artifacts-IsOngoing fresh artifacts n [] = tt
  artifacts-IsOngoing fresh artifacts n (o ∷ os) =
      elim (Option-cases (lookup o.artifact_id artifacts)) [
        | inl new ↦
            rw (new, All)
              (
                tt,
                artifacts-IsOngoing fresh
                    (insert o.artifact_id (new_artifact_id fresh n o.artifact_id) artifacts) (suc n)
                    os,
              )
        | inr (known, found) ↦ rw (found, All) (tt, artifacts-IsOngoing fresh artifacts n os)
      ]

  -- A consumer that wants all of an execution with a message is handed events after each of which
  -- the task is still open, and then one last event: the failed status with the fixed message if
  -- the dispatcher gave an error, and otherwise the completed status.
  pub execute_ends :
      {Metadata : Type 0} (fresh : ℕ → Text)
      (dispatch : DispatchRequest P Metadata → List (Dispatched P))
      (context : ExecutorContext P Metadata) (message : Message P)
      → context.message ≡ some message
      → (front : List (Item P)) × (execute (λ handed. true) fresh dispatch context
          ≡ front
            ++ (event (
                  if has_failed (dispatch (dispatch_request context message))
                  then status_update failed (some agent_error_message)
                  else status_update completed none)
                ∷ []))
        × All IsOngoing front
  unfolding execution
  execute_ends fresh dispatch context message given =
      let outputs = dispatch (dispatch_request context message) in
      let artifacts = map event (artifact_events fresh [] 0 (outputs_of outputs)) in
      let fine = artifacts-IsOngoing fresh [] 0 (outputs_of outputs) in
      let whole : execute (λ h. true) fresh dispatch context
          ≡ execution fresh dispatch context message =
        execute_lem (λ h. true) fresh dispatch context
        ∙ handed_of_all [] _
        ∙ ground (arith, given) in
      elim (Bool-cases context.stored) [
        | inl old ↦ (event (status_update working none) ∷ artifacts, whole ∙ simp old, (tt, fine))
        | inr new ↦ (
          event (submitted_task message) ∷ event (status_update working none) ∷ artifacts,
          whole ∙ simp new,
          (tt, (tt, fine)),
        )
      ]
