-- ===== src/Orchestrator/Execute/Stream.antt =====
-- The events of an execution as a whole, and what a consumer sees of them.
use a2a_red_panda_server_con.Prelude.{
  Text, ℕ, suc, Bool, true, false, none, some, List, [], ◌∷◌, ◌++◌, map, length, ◌==◌, lookup,
  insert, Assoc, if◌then◌else◌, ◌≡◌, refl, sym, ◌∙◌, ap, arith, Bool-cases, Option-cases, inl, inr,
}
use a2a_red_panda_server_con.Orchestrator.{
  Message, Output, Dispatched, output, failure, Event, submitted_task, status_update,
  artifact_created, artifact_updated, working, failed, completed, Item, event, problem,
  message_required,
}
use a2a_red_panda_server_con.Orchestrator.Execute.{
  Consumer, agent_error_message, new_artifact_id, emit, dispatch_loop, execute_message, execute,
}
use a2a_red_panda_server_con.Orchestrator.Request.{
  ExecutorContext, DispatchRequest, dispatch_request,
}

-- What a consumer is handed of a list: all up to the first item at which it wants no more.
unfoldable pub handed_of : {P : Type 0} → Consumer P → List (Item P) → List (Item P) → List (Item P)
handed_of more handed [] = handed
handed_of more handed (item ∷ items) =
    let rest = handed_of more (handed ++ (item ∷ [])) items in
    if more (handed ++ (item ∷ [])) then rest else handed ++ (item ∷ [])

-- The outputs before the first failure that have parts, and whether there was a failure.
unfoldable pub outputs_of : {P : Type 0} → List (Dispatched P) → List (Output P)
outputs_of [] = []
outputs_of (failure ∷ rest) = []
outputs_of (output o ∷ rest) =
    let others = outputs_of rest in if length o.parts == 0 then others else o ∷ others

unfoldable pub has_failed : {P : Type 0} → List (Dispatched P) → Bool
has_failed [] = false
has_failed (failure ∷ rest) = true
has_failed (output o ∷ rest) = has_failed rest

module _ {P : Type 0} where
  -- The status at the end.
  abbrev pub ending : List (Dispatched P) → Event P
  ending outputs =
      if has_failed outputs
      then status_update failed (some agent_error_message)
      else status_update completed none

  -- The artifact events of a list of outputs.
  unfoldable pub artifact_events : (ℕ → Text) → Assoc Text → ℕ → List (Output P) → List (Event P)
  artifact_events fresh artifacts n [] = []
  artifact_events fresh artifacts n (o ∷ os) = elim (lookup o.artifact_id artifacts) [
    | none ↦
        artifact_created (new_artifact_id fresh n o.artifact_id) o.parts o.last_chunk
        ∷ artifact_events fresh
            (insert o.artifact_id (new_artifact_id fresh n o.artifact_id) artifacts) (suc n) os
    | some known ↦
        artifact_updated known o.parts o.last_chunk ∷ artifact_events fresh artifacts n os
  ]

  -- The rest of an execution from the map of artifacts on.
  abbrev pub remainder : (ℕ → Text) → Assoc Text → ℕ → List (Dispatched P) → List (Item P)
  remainder fresh artifacts n outputs =
      map event (artifact_events fresh artifacts n (outputs_of outputs))
      ++ (event (ending outputs) ∷ [])

  -- An execution as a whole: the task where it is new, that it is being worked on, the
  -- artifacts, the status at the end.
  unfoldable pub execution :
      {Metadata : Type 0} (fresh : ℕ → Text)
      (dispatch : DispatchRequest P Metadata → List (Dispatched P))
      → ExecutorContext P Metadata
      → Message P
      → List (Item P)
  execution fresh dispatch context message =
      let work =
        event (status_update working none)
        ∷ remainder fresh [] 0 (dispatch (dispatch_request context message)) in
      if context.stored then work else event (submitted_task message) ∷ work

module _ {P : Type 0} (more : Consumer P) where
  emit-handed_of :
      (item : Item P) (handed items : List (Item P)) (rest : List (Item P) → List (Item P))
      → rest (handed ++ (item ∷ [])) ≡ handed_of more (handed ++ (item ∷ [])) items
      → emit more item handed rest ≡ handed_of more handed (item ∷ items)
  unfolding emit handed_of
  emit-handed_of item handed items rest h = ground (arith, h)

  emit_last :
      (item : Item P) (handed : List (Item P))
      → emit more item handed (λ all. all) ≡ handed_of more handed (item ∷ [])
  unfolding handed_of
  emit_last item handed = emit-handed_of item handed [] (λ all. all) refl

  module _ (fresh : ℕ → Text) where
    loop_new :
        (o : Output P) (rest : List (Dispatched P)) (artifacts : Assoc Text) (n : ℕ)
        (handed : List (Item P))
        → (length o.parts == 0) ≡ false
        → lookup o.artifact_id artifacts ≡ none
        → dispatch_loop more fresh artifacts n (output o ∷ rest) handed
          ≡ emit more
              (event
                (artifact_created (new_artifact_id fresh n o.artifact_id) o.parts o.last_chunk))
              handed
              (dispatch_loop more fresh
                (insert o.artifact_id (new_artifact_id fresh n o.artifact_id) artifacts)
                (suc n)
                rest)
    unfolding dispatch_loop
    loop_new o rest artifacts n handed full new = ground arith

    loop_known :
        (o : Output P) (rest : List (Dispatched P)) (artifacts : Assoc Text) (n : ℕ)
        (handed : List (Item P)) (known : Text)
        → (length o.parts == 0) ≡ false
        → lookup o.artifact_id artifacts ≡ some known
        → dispatch_loop more fresh artifacts n (output o ∷ rest) handed
          ≡ emit more
              (event (artifact_updated known o.parts o.last_chunk))
              handed
              (dispatch_loop more fresh artifacts n rest)
    unfolding dispatch_loop
    loop_known o rest artifacts n handed known full found = ground arith

    outputs_full :
        (o : Output P) (rest : List (Dispatched P))
        → (length o.parts == 0) ≡ false
        → outputs_of (output o ∷ rest) ≡ o ∷ outputs_of rest
    unfolding outputs_of
    outputs_full o rest full = ground arith

    remainder_new :
        (o : Output P) (rest : List (Dispatched P)) (artifacts : Assoc Text) (n : ℕ)
        → (length o.parts == 0) ≡ false
        → lookup o.artifact_id artifacts ≡ none
        → remainder fresh artifacts n (output o ∷ rest)
          ≡ event (artifact_created (new_artifact_id fresh n o.artifact_id) o.parts o.last_chunk)
            ∷ remainder fresh
                (insert o.artifact_id (new_artifact_id fresh n o.artifact_id) artifacts)
                (suc n)
                rest
    unfolding artifact_events has_failed
    remainder_new o rest artifacts n full new = rw (outputs_full o rest full) (rw (new, ◌++◌))

    remainder_known :
        (o : Output P) (rest : List (Dispatched P)) (artifacts : Assoc Text) (n : ℕ) (known : Text)
        → (length o.parts == 0) ≡ false
        → lookup o.artifact_id artifacts ≡ some known
        → remainder fresh artifacts n (output o ∷ rest)
          ≡ event (artifact_updated known o.parts o.last_chunk) ∷ remainder fresh artifacts n rest
    unfolding artifact_events has_failed
    remainder_known o rest artifacts n known full found =
        rw (outputs_full o rest full) (rw (found, ◌++◌))

    loop_lem :
        (outputs : List (Dispatched P)) (artifacts : Assoc Text) (n : ℕ) (handed : List (Item P))
        → dispatch_loop more fresh artifacts n outputs handed
          ≡ handed_of more handed (remainder fresh artifacts n outputs)
    unfolding dispatch_loop outputs_of has_failed artifact_events
    loop_lem [] artifacts n handed = emit_last (event (status_update completed none)) handed
    loop_lem (failure ∷ rest) artifacts n handed =
        emit_last (event (status_update failed (some agent_error_message))) handed
    loop_lem (output o ∷ rest) artifacts n handed = elim (Bool-cases (length o.parts == 0)) [
      | inl empty ↦ rw empty (loop_lem rest artifacts n handed)
      | inr full ↦ elim (Option-cases (lookup o.artifact_id artifacts)) [
        | inl new ↦
            loop_new o rest artifacts n handed full new
            ∙ emit-handed_of _ handed _ _ (loop_lem rest _ (suc n) _)
            ∙ ap (handed_of more handed) (sym (remainder_new o rest artifacts n full new))
        | inr (known, found) ↦
            loop_known o rest artifacts n handed known full found
            ∙ emit-handed_of _ handed _ _ (loop_lem rest artifacts n _)
            ∙ ap (handed_of more handed) (sym (remainder_known o rest artifacts n known full found))
      ]
    ]

    module _ {Metadata : Type 0} (dispatch : DispatchRequest P Metadata → List (Dispatched P)) where
      message_lem :
          (context : ExecutorContext P Metadata) (message : Message P)
          → execute_message more fresh dispatch context message
            ≡ handed_of more [] (execution fresh dispatch context message)
      unfolding execute_message execution
      message_lem context message =
          let outputs = dispatch (dispatch_request context message) in
          let work = λ (handed : List (Item P)).
            emit-handed_of (event (status_update working none)) handed
              (remainder fresh [] 0 outputs) (dispatch_loop more fresh [] 0 outputs)
              (loop_lem outputs [] 0 (handed ++ (event (status_update working none) ∷ []))) in
          elim (Bool-cases context.stored) [
            | inl old ↦ simp old (work [])
            | inr new ↦ simp new (
                emit-handed_of (event (submitted_task message)) [] _ _
                  (work (event (submitted_task message) ∷ [])))
          ]

      -- A consumer of `Execute` is handed, item by item, the whole execution up to the first item
      -- at which it wants no more; without a message the whole execution is one error.
      pub execute_lem :
          (context : ExecutorContext P Metadata)
          → execute more fresh dispatch context
            ≡ handed_of more [] (elim context.message [
              | none ↦ problem message_required ∷ []
              | some message ↦ execution fresh dispatch context message
            ])
      unfolding execute
      execute_lem context = elim (Option-cases context.message) [
        | inl absent ↦ rw absent (emit_last (problem message_required) [])
        | inr (message, given) ↦ ground (arith, given, message_lem context message)
      ]
