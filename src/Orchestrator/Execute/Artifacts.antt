-- ===== src/Orchestrator/Execute/Artifacts.antt =====
-- Artifacts are announced before they are added to.
use mathlib.Core.List.{append_assoc}
use a2a_red_panda_server_con.Prelude.{
  Text, ℕ, suc, none, some, List, [], ◌∷◌, ◌++◌, map, length, ◌==◌, ◌≡◌, ◌≢◌, refl, sym, ◌∙◌, arith,
  Bool-cases, inl, inr, All, lookup, insert, lookup-insert, text_eq_iff, Option-cases, Assoc, Among,
}
use a2a_red_panda_server_con.Orchestrator.{
  Message, Output, Dispatched, output, failure, Event, submitted_task, status_update,
  artifact_created, artifact_updated, Item, event, problem,
}
use a2a_red_panda_server_con.Orchestrator.Execute.{Consumer, execute, new_artifact_id}
use a2a_red_panda_server_con.Orchestrator.Execute.Stream.{
  handed_of, outputs_of, has_failed, ending, artifact_events, execution, execute_lem,
}
use a2a_red_panda_server_con.Orchestrator.Request.{
  ExecutorContext, DispatchRequest, dispatch_request,
}

module _ {P : Type 0} where
  -- Behind the artifacts `seen`, each new artifact has another ID than all before it, and what is
  -- added to was there before.
  abbrev pub IsAnnounced : List Text → List (Item P) → Type 0
  IsAnnounced seen [] = Unit
  IsAnnounced seen (event (artifact_created id parts last) ∷ items) =
      (¬ Among id seen) × IsAnnounced (id ∷ seen) items
  IsAnnounced seen (event (artifact_updated id parts last) ∷ items) =
      Among id seen × IsAnnounced seen items
  IsAnnounced seen (event (submitted_task m) ∷ items) = IsAnnounced seen items
  IsAnnounced seen (event (status_update s m) ∷ items) = IsAnnounced seen items
  IsAnnounced seen (problem e ∷ items) = IsAnnounced seen items

  -- The IDs that the dispatcher names are none that the SDK makes up.
  abbrev pub IsForeign : (ℕ → Text) → Dispatched P → Type 0
  IsForeign fresh failure = Unit
  IsForeign fresh (output o) = (m : ℕ) → o.artifact_id ≢ fresh m

-- What the map of artifacts says of the artifacts `seen`.
record IsTracked (fresh : ℕ → Text) (artifacts : Assoc Text) (seen : List Text) : Type 0 where
  known : (k id : Text) → lookup k artifacts ≡ some id → Among id seen
  named : (k : Text) → lookup k artifacts ≡ none → k ≢ [] → ((m : ℕ) → k ≢ fresh m) → ¬ Among k seen
  unnamed : lookup [] artifacts ≡ none → (m : ℕ) → ¬ Among (fresh m) seen

module _ (fresh : ℕ → Text) where
  absent_behind :
      (artifacts : Assoc Text) (k k' id : Text)
      → lookup k' (insert k id artifacts) ≡ none
      → (k' ≢ k) × (lookup k' artifacts ≡ none)
  absent_behind artifacts k k' id h =
      ground (arith, lookup-insert k k' id artifacts, text_eq_iff k k')

  present_behind :
      (artifacts : Assoc Text) (seen : List Text) (k id k' id' : Text)
      → IsTracked fresh artifacts seen
      → lookup k' (insert k id artifacts) ≡ some id'
      → Among id' (id ∷ seen)
  present_behind artifacts seen k id k' id' t h =
      ground (arith, lookup-insert k k' id artifacts, t.known k' id')

  named_id : (n c : ℕ) (k : Text) → new_artifact_id fresh n (c ∷ k) ≡ c ∷ k
  unfolding new_artifact_id
  named_id n c k = ground arith

  named-IsTracked :
      (artifacts : Assoc Text) (seen : List Text) (c : ℕ) (k : Text)
      → ((m : ℕ) → c ∷ k ≢ fresh m)
      → lookup (c ∷ k) artifacts ≡ none
      → IsTracked fresh artifacts seen
      → (¬ Among (c ∷ k) seen) × IsTracked fresh (insert (c ∷ k) (c ∷ k) artifacts) ((c ∷ k) ∷ seen)
  named-IsTracked artifacts seen c k foreign new t = (
    t.named (c ∷ k) new (cc) foreign,
    record {
      known = λ k' id' h. present_behind artifacts seen (c ∷ k) (c ∷ k) k' id' t h;
      named = λ k' h nonempty other a. elim a [
        | inl e ↦ (absent_behind artifacts (c ∷ k) k' (c ∷ k) h).0 e
        | inr b ↦ t.named k' (absent_behind artifacts (c ∷ k) k' (c ∷ k) h).1 nonempty other b
      ];
      unnamed = λ h m a. elim a [
        | inl e ↦ foreign m (sym e)
        | inr b ↦ t.unnamed (absent_behind artifacts (c ∷ k) [] (c ∷ k) h).1 m b
      ];
    },
  )

  new-IsTracked :
      (artifacts : Assoc Text) (seen : List Text) (n : ℕ) (k : Text)
      → ((m : ℕ) → k ≢ fresh m)
      → lookup k artifacts ≡ none
      → IsTracked fresh artifacts seen
      → (¬ Among (new_artifact_id fresh n k) seen)
        × IsTracked fresh
            (insert k (new_artifact_id fresh n k) artifacts)
            (new_artifact_id fresh n k ∷ seen)
  unfolding new_artifact_id
  new-IsTracked artifacts seen n [] foreign new t = (
    t.unnamed new n,
    record {
      known = λ k' id' h. present_behind artifacts seen [] (fresh n) k' id' t h;
      named = λ k' h nonempty other a. elim a [
        | inl e ↦ other n e
        | inr b ↦ t.named k' (absent_behind artifacts [] k' (fresh n) h).1 nonempty other b
      ];
      unnamed = λ h. absurd ((absent_behind artifacts [] [] (fresh n) h).0 refl);
    },
  )
  new-IsTracked artifacts seen n (c ∷ k) foreign new t =
      rw (named_id n c k) (named-IsTracked artifacts seen c k foreign new t)

  nothing-IsTracked : IsTracked fresh [] []
  unfolding lookup
  nothing-IsTracked = record {
    known = λ k id h. cc;
    named = λ k h n f a. elim a [ ];
    unnamed = λ h m a. elim a [ ];
  }

  module _ {P : Type 0} where
    -- The event at the end announces nothing.
    last-IsAnnounced :
        (seen : List Text) (outputs : List (Dispatched P))
        → IsAnnounced seen (event (ending outputs) ∷ [])
    last-IsAnnounced seen outputs = elim (Bool-cases (has_failed outputs)) [
      | inl f ↦ rw f tt
      | inr c ↦ rw c tt
    ]

    foreign_outputs :
        (outputs : List (Dispatched P))
        → All (IsForeign fresh) outputs
        → All (λ (o : Output P). (m : ℕ) → o.artifact_id ≢ fresh m) (outputs_of outputs)
    unfolding outputs_of
    foreign_outputs [] f = tt
    foreign_outputs (failure ∷ outputs) f = tt
    foreign_outputs (output o ∷ outputs) (f, fs) = elim (Bool-cases (length o.parts == 0)) [
      | inl empty ↦ rw empty (foreign_outputs outputs fs)
      | inr full ↦ rw full (f, foreign_outputs outputs fs)
    ]

    artifacts-IsAnnounced :
        (os : List (Output P)) (artifacts : Assoc Text) (n : ℕ) (seen : List Text) (last : Event P)
        → All (λ (o : Output P). (m : ℕ) → o.artifact_id ≢ fresh m) os
        → IsTracked fresh artifacts seen
        → ((seen : List Text) → IsAnnounced seen (event last ∷ []))
        → IsAnnounced seen (map event (artifact_events fresh artifacts n os) ++ (event last ∷ []))
    unfolding artifact_events
    artifacts-IsAnnounced [] artifacts n seen last f t h = h seen
    artifacts-IsAnnounced (o ∷ os) artifacts n seen last (f, fs) t h =
        elim (Option-cases (lookup o.artifact_id artifacts)) [
          | inl new ↦
              (let (apart, t') = new-IsTracked artifacts seen n o.artifact_id f new t in
                rw (new, ◌++◌) (apart, artifacts-IsAnnounced os _ (suc n) _ last fs t' h))
          | inr (known, found) ↦
              rw (found, ◌++◌)
                (
                  t.known o.artifact_id known found,
                  artifacts-IsAnnounced os artifacts n seen last fs t h,
                )
        ]

    prefix-IsAnnounced :
        (items rest : List (Item P)) (seen : List Text)
        → IsAnnounced seen (items ++ rest)
        → IsAnnounced seen items
    prefix-IsAnnounced [] rest seen a = tt
    prefix-IsAnnounced (event (artifact_created id parts last) ∷ items) rest seen (new, a) =
        (new, prefix-IsAnnounced items rest (id ∷ seen) a)
    prefix-IsAnnounced (event (artifact_updated id parts last) ∷ items) rest seen (there, a) =
        (there, prefix-IsAnnounced items rest seen a)
    prefix-IsAnnounced (event (submitted_task m) ∷ items) rest seen a =
        prefix-IsAnnounced items rest seen a
    prefix-IsAnnounced (event (status_update s m) ∷ items) rest seen a =
        prefix-IsAnnounced items rest seen a
    prefix-IsAnnounced (problem e ∷ items) rest seen a = prefix-IsAnnounced items rest seen a

    handed-IsAnnounced :
        (more : Consumer P) (items handed : List (Item P))
        → IsAnnounced [] (handed ++ items)
        → IsAnnounced [] (handed_of more handed items)
    unfolding handed_of
    handed-IsAnnounced more [] handed a = prefix-IsAnnounced handed [] [] a
    handed-IsAnnounced more (item ∷ items) handed a =
        let longer = rw (← append_assoc handed (item ∷ []) items) at a in
        elim (Bool-cases (more (handed ++ (item ∷ [])))) [
          | inl goes_on ↦ rw goes_on (handed-IsAnnounced more items (handed ++ (item ∷ [])) longer)
          | inr stops ↦ rw stops (prefix-IsAnnounced (handed ++ (item ∷ [])) items [] longer)
        ]

    module _ {Metadata : Type 0} (dispatch : DispatchRequest P Metadata → List (Dispatched P)) where
      execution-IsAnnounced :
          (context : ExecutorContext P Metadata) (message : Message P)
          → All (IsForeign fresh) (dispatch (dispatch_request context message))
          → IsAnnounced [] (execution fresh dispatch context message)
      unfolding execution
      execution-IsAnnounced context message foreign =
          let outputs = dispatch (dispatch_request context message) in
          let told =
            artifacts-IsAnnounced (outputs_of outputs) [] 0 [] (ending outputs)
              (foreign_outputs outputs foreign) nothing-IsTracked
              (λ seen. last-IsAnnounced seen outputs) in
          elim (Bool-cases context.stored) [ inl old ↦ simp old told | inr new ↦ simp new told ]

      -- Whatever a consumer of `Execute` takes: an artifact is made once, under an ID that no
      -- artifact before it has, and only what was made before is added to; as long as the
      -- dispatcher names no ID that the SDK makes up.
      pub execute-IsAnnounced :
          (more : Consumer P) (context : ExecutorContext P Metadata) (message : Message P)
          → context.message ≡ some message
          → All (IsForeign fresh) (dispatch (dispatch_request context message))
          → IsAnnounced [] (execute more fresh dispatch context)
      execute-IsAnnounced more context message given foreign =
          let whole : execute more fresh dispatch context
              ≡ handed_of more [] (execution fresh dispatch context message) =
            execute_lem more fresh dispatch context ∙ ground (arith, given) in
          rw whole (
            handed-IsAnnounced more (execution fresh dispatch context message) []
              (execution-IsAnnounced context message foreign))
