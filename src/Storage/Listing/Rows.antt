-- ===== src/Storage/Listing/Rows.antt =====
-- The loop that decodes the rows, over parts of the list.
use a2a_red_panda_server_con.Prelude.{
  ℕ, ◌≡◌, some, List, ◌∷◌, ok, length, take, drop, zero, suc, refl, ap, inl, inr, [], arith,
  Option-cases, Result-cases, Text,
}
use a2a_red_panda_server_con.Storage.Listing.{ListRequest, shape_listed_task, decode_rows}
use a2a_red_panda_server_con.Storage.Store.{Codec}
use a2a_red_panda_server_con.Storage.Table.{Task, Row}

module _ {M A : Type 0} (codec : Codec M A) (request : ListRequest) where
  -- One more row decodes in front of the others.
  decode_rows-cons :
      (row : Row) (rows : List Row) (ts : List (Task M A))
      → decode_rows codec request (row ∷ rows) ≡ ok ts
      → (t : Task M A) × (us : List (Task M A)) × (codec.decode row.task_json ≡ some t)
        × (decode_rows codec request rows ≡ ok us)
        × (ts ≡ shape_listed_task t request ∷ us)
  unfolding decode_rows
  decode_rows-cons row rows ts h = elim (Option-cases (codec.decode row.task_json)) [
    | inl bad ↦ absurd (ground arith)
    | inr (t, good) ↦ elim (Result-cases (decode_rows codec request rows)) [
      | inl (us, rest) ↦ (t, us, good, rest, ground arith)
      | inr (e, broken) ↦ absurd (ground arith)
    ]
  ]

  cons-decode_rows :
      (row : Row) (rows : List Row) (t : Task M A) (us : List (Task M A))
      → codec.decode row.task_json ≡ some t
      → decode_rows codec request rows ≡ ok us
      → decode_rows codec request (row ∷ rows) ≡ ok (shape_listed_task t request ∷ us)
  unfolding decode_rows
  cons-decode_rows row rows t us good rest = ground arith

  decode_rows-nil : (ts : List (Task M A)) → decode_rows codec request [] ≡ ok ts → ts ≡ []
  unfolding decode_rows
  decode_rows-nil ts h = cc

  nil-decode_rows : decode_rows codec request [] ≡ ok []
  unfolding decode_rows
  nil-decode_rows = refl

  pub decode_rows-take :
      (n : ℕ) (rows : List Row) (ts : List (Task M A))
      → decode_rows codec request rows ≡ ok ts
      → decode_rows codec request (take n rows) ≡ ok (take n ts)
  decode_rows-take zero rows ts h = nil-decode_rows
  decode_rows-take (suc n) [] ts h = rw (decode_rows-nil ts h) nil-decode_rows
  decode_rows-take (suc n) (r ∷ rows) ts h =
      let (t, us, good, rest, e) = decode_rows-cons r rows ts h in
      rw e (cons-decode_rows r (take n rows) t (take n us) good (decode_rows-take n rows us rest))

  pub decode_rows-drop :
      (n : ℕ) (rows : List Row) (ts : List (Task M A))
      → decode_rows codec request rows ≡ ok ts
      → decode_rows codec request (drop n rows) ≡ ok (drop n ts)
  decode_rows-drop zero rows ts h = h
  decode_rows-drop (suc n) [] ts h = rw (decode_rows-nil ts h) nil-decode_rows
  decode_rows-drop (suc n) (r ∷ rows) ts h =
      let (t, us, good, rest, e) = decode_rows-cons r rows ts h in
      rw e (decode_rows-drop n rows us rest)

  pub decode_rows-length :
      (rows : List Row) (ts : List (Task M A))
      → decode_rows codec request rows ≡ ok ts
      → length ts ≡ length rows
  decode_rows-length [] ts h = rw (decode_rows-nil ts h)
  decode_rows-length (r ∷ rows) ts h =
      let (t, us, good, rest, e) = decode_rows-cons r rows ts h in
      rw e (ap suc (decode_rows-length rows us rest))

-- A token only chooses the page: neither the filter nor the shape of a task reads it.
abbrev pub with_token : ListRequest → Text → ListRequest
with_token request token = record request { page_token = token }

pub decode_rows-with_token :
    {M A : Type 0} (codec : Codec M A) (request : ListRequest) (token : Text) (rows : List Row)
    → decode_rows codec (with_token request token) rows ≡ decode_rows codec request rows
unfolding decode_rows shape_listed_task
decode_rows-with_token codec request token [] = refl
decode_rows-with_token codec request token (row ∷ rows) =
    ground (arith, decode_rows-with_token codec request token rows)
