-- ===== src/Orchestrator/Loopback.antt =====
-- `LoopbackDispatcher`. Of a part it reads the text, and it makes a part of one: `text` and
-- `text_part` are the SDK's.
pub mod Echo
use a2a_red_panda_server_con.Prelude.{
  Text, str, Bool, true, false, not, List, [], ◌∷◌, ◌++◌, length, ◌==◌, if◌then◌else◌,
}
use a2a_red_panda_server_con.Strings.{join}
use a2a_red_panda_server_con.Orchestrator.{Message, Output, Dispatched, output}
use a2a_red_panda_server_con.Orchestrator.Request.{DispatchRequest, CancelRequest}

module _ {P : Type 0} (text : P → Text) where
  -- The loop over the parts of the message: the texts that are not empty.
  unfoldable pub texts_of : List P → List Text
  texts_of [] = []
  texts_of (part ∷ parts) =
      let rest = texts_of parts in if not (length (text part) == 0) then text part ∷ rest else rest

  unfoldable pub loopback_message : List Text → Text
  loopback_message texts =
      if length texts == 0
      then str "Task accepted for orchestration"
      else str "Task accepted for orchestration" ++ (str ": " ++ join (str " ") texts)

  unfoldable pub loopback_dispatch :
      {Metadata : Type 0} (text_part : Text → P) → DispatchRequest P Metadata → List (Dispatched P)
  loopback_dispatch text_part request =
      output (record {
        artifact_id = [];
        parts = text_part (loopback_message (texts_of request.message.parts)) ∷ [];
        last_chunk = true;
      })
      ∷ []

-- It never fails.
unfoldable pub loopback_cancel_fails : CancelRequest → Bool
loopback_cancel_fails request = false
