-- ===== src/Storage/Listing/Complete.antt =====
-- A client that follows the page tokens over a table that does not change is given every matching
-- task once, in the order of the listing.
use mathlib.Core.Option
use mathlib.Core.List.{append_assoc}
use a2a_red_panda_server_con.Prelude.{
  Text, ℕ, zero, suc, ◌+◌, ◌<◌, ◌≡◌, ◌∙◌, ◌≢◌, inl, inr, Bool, false, Option, none, some, List, [],
  ◌∷◌, ◌++◌, ltb, leb, ◌==◌, if◌then◌else◌, leb→le, Bool-cases, ok, err, length, take, select, All,
  Result, ◌>>=◌, sym, ap, subst, arith, drop, length-drop, split_at_last, refl, take-append-drop,
  ◌≤◌, pos, negsuc, ℤ,
}
use a2a_red_panda_server_con.Identity.{Identity}
use a2a_red_panda_server_con.Sorting.{sort}
use a2a_red_panda_server_con.Sorting.Laws.{IsLinear, All-sort, length-sort}
use a2a_red_panda_server_con.Storage.Cursor.{TokenText, encode_page_token}
use a2a_red_panda_server_con.Storage.Cursor.RoundTrip.{IsTokenText, encode_page_token-ne-nil}
use a2a_red_panda_server_con.Storage.Listing.{
  list_tasks, ListRequest, list_filter, page_size_of, max_int, row_before, page_rows, decode_rows,
  cursor_of, ListResponse,
}
use a2a_red_panda_server_con.Storage.Listing.Order.{
  IsCollation, IsLinear-of_IsWellFormed, All-select_of_All, IsLinear-select,
}
use a2a_red_panda_server_con.Storage.Listing.Pages.{
  list_page-last, list_tasks-page, page_rows-behind, list_page-more, cursor_of-encode,
}
use a2a_red_panda_server_con.Storage.Listing.Rows.{
  decode_rows-drop, with_token, decode_rows-with_token,
}
use a2a_red_panda_server_con.Storage.Store.{StoreError, Codec, no_faults}
use a2a_red_panda_server_con.Storage.Store.Create.{length_ne_zero}
use a2a_red_panda_server_con.Storage.Store.Lookup.{IsWhole}
use a2a_red_panda_server_con.Storage.Table.{Task, Row, Table}
use a2a_red_panda_server_con.Storage.Table.WellFormed.{IsWellFormed}

module _ {M A : Type 0} (codec : Codec M A) (writer : TokenText) (less : Text → Text → Bool) where
  -- A client that asks for page after page; `none` means that its fuel ran out.
  pub follow :
      (fuel : ℕ) (i : Identity) (request : ListRequest) (token : Text) (table : Table)
      → Option (Result StoreError (List (Task M A)))
  follow zero i request token table = none
  follow (suc fuel) i request token table =
      elim (list_tasks codec writer less no_faults (some i) (some (with_token request token))
        table) [
          | err e ↦ some (err e)
          | ok page ↦
              if length page.next_page_token == 0
              then some (ok page.tasks)
              else Option.map (λ r. r >>= λ rest. ok (page.tasks ++ rest))
                  (follow fuel i request page.next_page_token table)
        ]

  follow-last :
      (fuel : ℕ) (i : Identity) (request : ListRequest) (token : Text) (table : Table)
      (page : ListResponse M A)
      → list_tasks codec writer less no_faults (some i) (some (with_token request token)) table
        ≡ ok page
      → page.next_page_token ≡ []
      → follow (suc fuel) i request token table ≡ some (ok page.tasks)
  unfolding follow
  follow-last fuel i request token table page asked end = ground arith

  follow-more :
      (fuel : ℕ) (i : Identity) (request : ListRequest) (token : Text) (table : Table)
      (page : ListResponse M A) (ts : List (Task M A))
      → list_tasks codec writer less no_faults (some i) (some (with_token request token)) table
        ≡ ok page
      → page.next_page_token ≢ []
      → follow fuel i request page.next_page_token table ≡ some (ok ts)
      → follow (suc fuel) i request token table ≡ some (ok (page.tasks ++ ts))
  unfolding follow
  follow-more fuel i request token table page ts asked more next =
      ground (arith, length_ne_zero page.next_page_token more)

All-behind {ℓ κ} :
    {A : Type ℓ} (P : A → Type κ) (front : List A) (x : A) (rest : List A)
    → All P (front ++ (x ∷ rest))
    → P x × All P rest
All-behind P [] x rest h = h
All-behind P (y ∷ front) x rest (_, h) = All-behind P front x rest h

module _ {M A : Type 0} (codec : Codec M A) (writer : TokenText) (laws : IsTokenText writer)
    (less : Text → Text → Bool) (c : IsCollation less) (i : Identity) (request : ListRequest)
    (m : ℕ) (table : Table) (whole : IsWhole i) (size : page_size_of request.page_size ≡ ok (suc m))
    (few : ltb max_int (length (select (list_filter i request) table)) ≡ false)
    (linear : IsLinear (row_before less) (select (list_filter i request) table)) where
  follow_rest :
      (fuel : ℕ) (token : Text) (cursor : Option (ℕ × Text)) (front rest : List Row)
      (ts : List (Task M A))
      → sort (row_before less) (select (list_filter i request) table) ≡ front ++ rest
      → cursor_of codec writer less token ≡ ok cursor
      → page_rows less (suc m) cursor (select (list_filter i request) table) ≡ take (suc m + 1) rest
      → decode_rows codec request rest ≡ ok ts
      → All (λ r. r.task_id ≢ []) rest
      → length rest < fuel
      → follow codec writer less fuel i request token table ≡ some (ok ts)
  unfolding list_filter
  follow_rest zero token cursor front rest ts sorted at reads decoded named enough = elim enough [ ]
  follow_rest (suc fuel) token cursor front rest ts sorted at reads decoded named enough =
      let decoded' = decode_rows-with_token codec request token rest ∙ decoded in
      let asked =
        list_tasks-page less c codec writer i request token (suc m) cursor table whole size at in
      elim (Bool-cases (leb (length rest) (suc m))) [
        | inl short ↦
            follow-last codec writer less fuel i request token table _
              (asked
                ∙ list_page-last less c codec writer i (with_token request token) (suc m) cursor
                    table rest ts few reads decoded' (leb→le _ _ short))
              refl
        | inr long ↦
            (let more : suc m < length rest = ground arith in
              let (front', x, here, last) = split_at_last m rest (omega arith) in
              let found = sorted ∙ ap (λ l. front ++ l) here ∙ sym (append_assoc front front' _) in
              let (x_named, named') =
                All-behind _ front' x _ (subst (All (λ r. r.task_id ≢ [])) here named) in
              let next =
                follow_rest fuel (encode_page_token writer x.updated_at x.task_id)
                  (some (x.updated_at, x.task_id)) ((front ++ front') ++ (x ∷ []))
                  (drop (suc m) rest) (drop (suc m) ts)
                  (found ∙ sym (append_assoc (front ++ front') (x ∷ []) _))
                  (cursor_of-encode less c codec writer laws x.updated_at x.task_id x_named)
                  (page_rows-behind less c (suc m) (select (list_filter i request) table)
                    (front ++ front') x _ linear found)
                  (decode_rows-drop codec request (suc m) rest ts decoded) named'
                  (omega (arith, length-drop (suc m) rest)) in
              follow-more codec writer less fuel i request token table _ (drop (suc m) ts)
                (asked
                  ∙ list_page-more less c codec writer i (with_token request token) (suc m) cursor
                      table rest ts few reads decoded' x more last)
                (encode_page_token-ne-nil writer laws x.updated_at x.task_id) next
              ∙ ap (λ l. some (ok l)) (take-append-drop (suc m) ts))
      ]

named_rows : (table : Table) → IsWellFormed table → All (λ r. r.task_id ≢ []) table
named_rows [] w = tt
named_rows (r ∷ table) w = (w.3, named_rows table w.4)

-- A page holds at least one task and at most a hundred.
pub page_size_bounds : (size : ℤ) (n : ℕ) → page_size_of size ≡ ok n → (1 ≤ n) × (n ≤ 100)
unfolding page_size_of
page_size_bounds (pos k) n h = ground arith
page_size_bounds (negsuc k) n h = cc

module _ {M A : Type 0} (codec : Codec M A) (writer : TokenText) (laws : IsTokenText writer)
    (less : Text → Text → Bool) (c : IsCollation less) where
  -- Over a well-formed table that does not change, whatever page size the request names, the pages
  -- that a whole identity is given from the first one on are together the list of all rows that
  -- the filter selects, each once and in the order of the listing, as the tasks that they decode
  -- to. More rounds than there are such rows are enough.
  pub follow_complete :
      (fuel : ℕ) (i : Identity) (request : ListRequest) (n : ℕ) (table : Table)
      (ts : List (Task M A))
      → IsWhole i
      → page_size_of request.page_size ≡ ok n
      → IsWellFormed table
      → length (select (list_filter i request) table) ≤ max_int
      → decode_rows codec request (sort (row_before less) (select (list_filter i request) table))
        ≡ ok ts
      → length (select (list_filter i request) table) < fuel
      → follow codec writer less fuel i request [] table ≡ some (ok ts)
  unfolding page_rows cursor_of
  follow_complete fuel i request zero table ts whole size w few decoded enough =
      absurd (omega (arith, page_size_bounds request.page_size 0 size))
  follow_complete fuel i request (suc m) table ts whole size w few decoded enough =
      follow_rest codec writer laws less c i request m table whole size (ground arith)
        (IsLinear-select less c (list_filter i request) table
          (IsLinear-of_IsWellFormed less c table w))
        fuel [] none [] _ ts refl refl refl decoded
        (All-sort (row_before less) (λ r. r.task_id ≢ []) _
          (All-select_of_All less c (λ r. r.task_id ≢ []) (list_filter i request) table
            (named_rows table w)))
        (omega (arith, length-sort (row_before less) (select (list_filter i request) table)))
