-- ===== src/Orchestrator.antt =====
-- internal/orchestrator/executor.go: the executor, which turns what a dispatcher puts out into the
-- events of a task. `P` is the SDK's part of a message.
pub mod Request
pub mod Execute
pub mod Cancel
pub mod Loopback
use a2a_red_panda_server_con.Prelude.{Text, Bool, Option, List}

pub record Message (P : Type 0) : Type 0 where
  pub parts : List P

pub record Output (P : Type 0) : Type 0 where
  pub artifact_id : Text
  pub parts : List P
  pub last_chunk : Bool

-- What the iterator of `Dispatch` gives: an output or an error.
pub data Dispatched (P : Type 0) : Type 0 where
  output : Output P → Dispatched P
  failure : Dispatched P

pub data TaskState : Type 0 where
  working failed canceled completed : TaskState

-- The events of the SDK that the executor makes: a task that was submitted with its message, a
-- status with the agent's message, a new artifact, more of an artifact that is there.
pub data Event (P : Type 0) : Type 0 where
  submitted_task : Message P → Event P
  status_update : TaskState → Option Text → Event P
  artifact_created artifact_updated : Text → List P → (last_chunk : Bool) → Event P

pub data ExecutorError : Type 0 where
  dispatcher_required message_required internal_error : ExecutorError

-- What one `yield` hands to the consumer.
pub data Item (P : Type 0) : Type 0 where
  event : Event P → Item P
  problem : ExecutorError → Item P
