-- ===== src/Storage/Listing/Shape.antt =====
-- What a listed task shows of its history and artifacts.
use Prim.Native.Nat.{min}
use mathlib.Core.List.{append-nil}
use mathlib.Core.Option.{get_or}
use a2a_red_panda_server_con.Prelude.{
  ℕ, zero, suc, ◌-◌, ◌≡◌, refl, sym, inl, inr, Option, none, some, List, [], ◌++◌, arith, ltb,
  if◌then◌else◌, Bool-cases, pos, length, take, take-append-drop, length-drop, ℤ, true, false, drop,
  negsuc,
}
use a2a_red_panda_server_con.Storage.Listing.{ListRequest, shape_history, shape_listed_task}
use a2a_red_panda_server_con.Storage.Table.{Task}

shape_long :
    {M : Type 0} (n : ℕ) (history : List M)
    → ltb (suc n) (length history) ≡ true
    → shape_history (pos (suc n)) history ≡ drop (length history - suc n) history
unfolding shape_history
shape_long n history long = ground arith

shape_short :
    {M : Type 0} (n : ℕ) (history : List M)
    → ltb (suc n) (length history) ≡ false
    → shape_history (pos (suc n)) history ≡ history
unfolding shape_history
shape_short n history short = ground arith

shape_history_pos :
    {M : Type 0} (n : ℕ) (history : List M)
    → (front : List M) × (history ≡ front ++ shape_history (pos n) history)
      × (length (shape_history (pos n) history) ≡ min n (length history))
unfolding shape_history
shape_history_pos zero history = (history, sym (append-nil history), omega arith)
shape_history_pos (suc n) history = elim (Bool-cases (ltb (suc n) (length history))) [
  | inl long ↦
      (let cut = shape_long n history long in
        (
          take (length history - suc n) history,
          rw cut (sym (take-append-drop (length history - suc n) history)),
          rw cut (ground (arith, length-drop (length history - suc n) history)),
        ))
  | inr short ↦ (let whole = shape_short n history short in ([], rw whole, rw whole (ground arith)))
]

-- The last n items of the history, or all of it where it has no more.
abbrev pub IsLast : {M : Type 0} → ℕ → (history shown : List M) → Type 0
IsLast {M} n history shown =
    (front : List M) × (history ≡ front ++ shown) × (length shown ≡ min n (length history))

-- What is shown of the history for the requested length.
abbrev pub IsShownHistory : {M : Type 0} → Option ℤ → (history shown : List M) → Type 0
IsShownHistory none history shown = IsLast 100 history shown
IsShownHistory (some (pos n)) history shown = IsLast n history shown
IsShownHistory (some (negsuc n)) history shown = shown ≡ history

shape_history-IsShownHistory :
    {M : Type 0} (limit : Option ℤ) (history : List M)
    → IsShownHistory limit history (shape_history (get_or limit (pos 100)) history)
unfolding shape_history
shape_history-IsShownHistory none history = shape_history_pos 100 history
shape_history-IsShownHistory (some (pos n)) history = shape_history_pos n history
shape_history-IsShownHistory (some (negsuc n)) history = refl

-- With a history length of n the listed task has the last n messages, or all where it has no more;
-- without one n is 100; a negative one keeps the whole history. Artifacts are shown only on demand,
-- and ID, context, state and the status's time are as they were stored.
pub shape_listed_task_lem :
    {M A : Type 0} (task : Task M A) (request : ListRequest)
    → IsShownHistory request.history_length task.history (shape_listed_task task request).history
      × ((shape_listed_task task request).artifacts
          ≡ (if request.include_artifacts then task.artifacts else []))
      × ((shape_listed_task task request).id ≡ task.id)
      × ((shape_listed_task task request).context_id ≡ task.context_id)
      × ((shape_listed_task task request).state ≡ task.state)
      × ((shape_listed_task task request).status_timestamp ≡ task.status_timestamp)
unfolding shape_listed_task
shape_listed_task_lem task request = (
  shape_history-IsShownHistory request.history_length task.history,
  ground arith,
  refl,
  refl,
  refl,
  refl,
)
