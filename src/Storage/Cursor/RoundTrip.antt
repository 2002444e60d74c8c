-- ===== src/Storage/Cursor/RoundTrip.antt =====
-- A page token decodes to what it was made of.
use a2a_red_panda_server_con.Prelude.{Text, ℕ, ◌≡◌, ◌≢◌, some, [], All, ◌∷◌, ◌++◌, arith}
use a2a_red_panda_server_con.Storage.Cursor.{TokenText, encode_page_token, decode_page_token}
use a2a_red_panda_server_con.Storage.Store.Create.{length_ne_zero}
use a2a_red_panda_server_con.Strings.Split.{cut_complete}

-- The layout writes digits, `-`, `:`, `.`, `T` and `Z`, and parsing reads back what it wrote;
-- base64 decodes what it encoded, and the empty text to itself.
pub record IsTokenText (text : TokenText) : Type 0 where
  pub time_nonempty : (n : ℕ) → text.format_time n ≢ []
  pub time_plain : (n : ℕ) → All (λ c. c ≢ b'_') (text.format_time n)
  pub parse-format : (n : ℕ) → text.parse_time (text.format_time n) ≡ some n
  pub decode-encode : (s : Text) → text.decode_base64 (text.encode_base64 s) ≡ some s
  pub decode-nil : text.decode_base64 [] ≡ some []

append_ne_nil : (s : Text) (c : ℕ) (t : Text) → s ++ (c ∷ t) ≢ []
append_ne_nil [] c t = cc
append_ne_nil (d ∷ s) c t = cc

module _ (text : TokenText) (laws : IsTokenText text) where
  -- Decoding the token of an update time and a task ID that is not empty gives both back, also
  -- where the ID holds underscores.
  pub decode-encode_page_token :
      (updated_at : ℕ) (task_id : Text)
      → task_id ≢ []
      → decode_page_token text (encode_page_token text updated_at task_id)
        ≡ some (updated_at, task_id)
  unfolding decode_page_token encode_page_token
  decode-encode_page_token n id named = ground (
    arith,
    laws.decode-encode (text.format_time n ++ (b'_' ∷ id)),
    cut_complete b'_' (text.format_time n) id (laws.time_plain n),
    length_ne_zero (text.format_time n) (laws.time_nonempty n),
    length_ne_zero id named,
    laws.parse-format n,
  )

  -- A token is not empty, so a client that has one asks for a further page.
  pub encode_page_token-ne-nil :
      (updated_at : ℕ) (task_id : Text) → encode_page_token text updated_at task_id ≢ []
  unfolding encode_page_token
  encode_page_token-ne-nil n id e =
      append_ne_nil (text.format_time n) b'_' id
        (cc (laws.decode-encode (text.format_time n ++ (b'_' ∷ id)), laws.decode-nil))
