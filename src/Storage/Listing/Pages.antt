-- ===== src/Storage/Listing/Pages.antt =====
-- Following the page tokens over a table that does not change lists every matching task once, in
-- order.
use a2a_red_panda_server_con.Prelude.{
  Text, ℕ, suc, ◌+◌, ◌≡◌, sym, ap, ◌∙◌, subst, Bool, Option, some, List, [], ◌∷◌, ◌++◌, ok, take,
  select, ◌≤◌, ◌<◌, false, arith, ltb, length, get_last?, take_all, ◌≢◌, length-take, take-take-suc,
  true, >>=-ok,
}
use a2a_red_panda_server_con.Identity.{Identity}
use a2a_red_panda_server_con.Sorting.{sort}
use a2a_red_panda_server_con.Sorting.Laws.{
  IsSorted, IsLinear, sort-IsSorted, select-sort, select-behind,
}
use a2a_red_panda_server_con.Storage.Cursor.{TokenText, encode_page_token}
use a2a_red_panda_server_con.Storage.Cursor.RoundTrip.{
  IsTokenText, decode-encode_page_token, encode_page_token-ne-nil,
}
use a2a_red_panda_server_con.Storage.Listing.{
  list_tasks, ListRequest, row_before, page_rows, list_filter, max_int, decode_rows, next_token,
  list_page, page_size_of, cursor_of,
}
use a2a_red_panda_server_con.Storage.Listing.Order.{IsCollation, row_before_trans, row_before-asym}
use a2a_red_panda_server_con.Storage.Listing.Rows.{decode_rows-length, decode_rows-take, with_token}
use a2a_red_panda_server_con.Storage.Store.{Codec, no_faults}
use a2a_red_panda_server_con.Storage.Store.Create.{length_ne_zero}
use a2a_red_panda_server_con.Storage.Store.Lookup.{IsWhole, verified_identity_of_IsWhole}
use a2a_red_panda_server_con.Storage.Table.{Task, Row, Table}

-- The rows that are still to be listed behind a cursor.
module _ (less : Text → Text → Bool) (c : IsCollation less) where
  -- Behind the cursor of a row stand the rows that follow it in the order.
  pub page_rows-behind :
      (n : ℕ) (matching front : List Row) (x : Row) (rest : List Row)
      → IsLinear (row_before less) matching
      → sort (row_before less) matching ≡ front ++ (x ∷ rest)
      → page_rows less n (some (x.updated_at, x.task_id)) matching ≡ take (n + 1) rest
  unfolding page_rows row_before
  page_rows-behind n matching front x rest linear sorted = ap (take (n + 1)) (
      sym (
        select-sort (row_before less) (row_before_trans less c) (row_before less x) matching linear)
      ∙ ap (select (row_before less x)) sorted
      ∙ select-behind (row_before less) (row_before_trans less c) (row_before-asym less c) front x
          rest
          (subst (IsSorted (row_before less)) sorted
            (sort-IsSorted (row_before less) (row_before_trans less c) matching linear)))

  next_token-more :
      {M A : Type 0} (codec : Codec M A) (text : TokenText) (n : ℕ) (rest : List Row) (x : Row)
      → n < length rest
      → get_last? (take n rest) ≡ some x
      → next_token codec text less n (take (suc n) rest)
        ≡ encode_page_token text x.updated_at x.task_id
  unfolding next_token
  next_token-more codec text n rest x long last =
      let full : ltb n (length (take (suc n) rest)) ≡ true =
        ground (arith, length-take (suc n) rest long) in
      rw (full, ap get_last? (take-take-suc n rest) ∙ last)

  -- One page over the rows `rest`, of which `ts` are the tasks.
  module _ {M A : Type 0} (codec : Codec M A) (text : TokenText) (i : Identity)
      (request : ListRequest) (n : ℕ) (cursor : Option (ℕ × Text)) (table : Table) (rest : List Row)
      (ts : List (Task M A))
      (few : ltb max_int (length (select (list_filter i request) table)) ≡ false)
      (reads : page_rows less n cursor (select (list_filter i request) table) ≡ take (n + 1) rest)
      (decoded : decode_rows codec request rest ≡ ok ts) where
    pub list_page-last :
        length rest ≤ n
        → list_page codec text less i request n cursor table
          ≡ ok (record {
            tasks = ts;
            page_size = n;
            total_size = length (select (list_filter i request) table);
            next_page_token = [];
          })
    unfolding list_page next_token
    list_page-last short =
        let whole = reads ∙ take_all (n + 1) rest (omega arith) in
        let count = decode_rows-length codec request rest ts decoded in
        rw (few, whole, decoded) (ground (arith, take_all n ts))

    pub list_page-more :
        (x : Row)
        → n < length rest
        → get_last? (take n rest) ≡ some x
        → list_page codec text less i request n cursor table
          ≡ ok (record {
            tasks = take n ts;
            page_size = n;
            total_size = length (select (list_filter i request) table);
            next_page_token = encode_page_token text x.updated_at x.task_id;
          })
    unfolding list_page
    list_page-more x long last =
        let one_more : n + 1 ≡ suc n = omega arith in
        let reads' = reads ∙ ap (λ k. take k rest) one_more in
        rw (
          few,
          reads',
          decode_rows-take codec request (suc n) rest ts decoded,
          take-take-suc n ts,
          next_token-more codec text n rest x long last,
        )

  module _ {M A : Type 0} (codec : Codec M A) (text : TokenText) where
    -- A call that passes its checks is the reading of one page.
    pub list_tasks-page :
        (i : Identity) (request : ListRequest) (token : Text) (n : ℕ) (cursor : Option (ℕ × Text))
        (table : Table)
        → IsWhole i
        → page_size_of request.page_size ≡ ok n
        → cursor_of codec text less token ≡ ok cursor
        → list_tasks codec text less no_faults (some i) (some (with_token request token)) table
          ≡ list_page codec text less i (with_token request token) n cursor table
    unfolding list_tasks
    list_tasks-page i request token n cursor table whole size position =
        rw (verified_identity_of_IsWhole i whole, size, position)
          (>>=-ok (list_page codec text less i (with_token request token) n cursor table))

    pub cursor_of-encode :
        (laws : IsTokenText text) (updated_at : ℕ) (id : Text)
        → id ≢ []
        → cursor_of codec text less (encode_page_token text updated_at id)
          ≡ ok (some (updated_at, id))
    unfolding cursor_of
    cursor_of-encode laws updated_at id named = ground (
      arith,
      length_ne_zero _ (encode_page_token-ne-nil text laws updated_at id),
      decode-encode_page_token text laws updated_at id named,
    )
