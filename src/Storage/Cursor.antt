-- ===== src/Storage/Cursor.antt =====
-- internal/storage/postgres/cursor.go: page tokens. `time.Format` and `time.Parse` for the layout
-- RFC3339Nano in UTC, and base64's URL alphabet, are parameters.
pub mod RoundTrip
use a2a_red_panda_server_con.Prelude.{
  Text, ℕ, ◌||◌, Option, none, some, ◌∷◌, ◌++◌, ◌==◌, if◌then◌else◌, length,
}
use a2a_red_panda_server_con.Strings.{cut}

pub record TokenText : Type 0 where
  pub format_time : ℕ → Text
  pub parse_time : Text → Option ℕ
  pub encode_base64 : Text → Text
  pub decode_base64 : Text → Option Text

-- `none` is `ErrParseError`.
module _ (text : TokenText) where
  unfoldable pub encode_page_token : ℕ → Text → Text
  encode_page_token updated_at task_id =
      text.encode_base64 (text.format_time updated_at ++ (b'_' ∷ task_id))

  unfoldable pub decode_page_token : Text → Option (ℕ × Text)
  decode_page_token token = elim (text.decode_base64 token) [
    | none ↦ none
    | some decoded ↦ elim (cut b'_' decoded) [
      | none ↦ none
      | some (timestamp_text, task_id_text) ↦
          if length timestamp_text == 0 || length task_id_text == 0
          then none
          else elim (text.parse_time timestamp_text) [
            | none ↦ none
            | some updated_at ↦ some (updated_at, task_id_text)
          ]
    ]
  ]
