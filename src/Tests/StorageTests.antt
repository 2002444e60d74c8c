-- ===== src/Tests/StorageTests.antt =====
-- The storage theorems at a small table of two owners.
use a2a_red_panda_server_con.Prelude.{
  Text, str, ℕ, ◌≡◌, refl, ◌≢◌, inr, false, none, some, List, [], ◌∷◌, arith, ok, err, length, pos,
  select, ◌≤◌, if◌then◌else◌, text_eq, ◌<◌, ◌⊎◌, true,
}
use a2a_red_panda_server_con.Sorting.{insert_sorted, sort}
use a2a_red_panda_server_con.Storage.Cursor.{encode_page_token, decode_page_token}
use a2a_red_panda_server_con.Storage.Cursor.RoundTrip.{decode-encode_page_token}
use a2a_red_panda_server_con.Storage.Isolation.{answers_in_scope}
use a2a_red_panda_server_con.Storage.Listing.{
  list_tasks, ListRequest, list_filter, page_size_of, take_last, shape_history, shape_listed_task,
  max_int, key_less, row_before, decode_rows,
}
use a2a_red_panda_server_con.Storage.Listing.Complete.{follow, follow_complete}
use a2a_red_panda_server_con.Storage.Listing.Shape.{shape_listed_task_lem, IsShownHistory}
use a2a_red_panda_server_con.Storage.Store.{
  concurrent_modification, no_faults, verified_identity, insert_row, is_stale, new_row, updated_row,
  prepare, create, update_transaction, update, get, database_failed, Faults,
}
use a2a_red_panda_server_con.Storage.Store.Create.{CreateContract, create-CreateContract, answered}
use a2a_red_panda_server_con.Storage.Store.Lookup.{IsWhole}
use a2a_red_panda_server_con.Storage.Store.Runs.{
  Call, create_call, update_call, answer, run, run-IsWellFormed, CallIsAway,
}
use a2a_red_panda_server_con.Storage.Store.Update.{UpdateContract, update-UpdateContract}
use a2a_red_panda_server_con.Storage.Store.Versions.{no_lost_update, NeverAgain, failed_update}
use a2a_red_panda_server_con.Storage.Table.{
  Task, Table, in_scope, is_key, find_row, has_id, not_blank, satisfies_checks, update_rows,
}
use a2a_red_panda_server_con.Storage.Table.WellFormed.{IsWellFormed}
use a2a_red_panda_server_con.Strings.{trim_space}
use a2a_red_panda_server_con.Tests.Base.{
  plain_codec, plain_codec-IsFaithful, plain_text, plain_text-IsTokenText, text_less,
  text_less-IsCollation, alice, bob,
}

abbrev task : Text → ℕ → Task ℕ ℕ
task id n = record {
  id = id;
  context_id = str "c";
  state = str "working";
  status_timestamp = some 9;
  history = n ∷ 7 ∷ 8 ∷ [];
  artifacts = 4 ∷ [];
}

abbrev one : Task ℕ ℕ
one = task (str "one") 1

abbrev two : Task ℕ ℕ
two = task (str "two") 2

abbrev setup : List (Call ℕ ℕ)
setup =
    create_call no_faults 5 (some alice) (some one)
    ∷ create_call no_faults 6 (some bob) (some (task (str "bobs") 3))
    ∷ create_call no_faults 7 (some alice) (some two)
    ∷ update_call no_faults 8 (some alice) (some one) (some 1)
    ∷ []

abbrev three_rows : Table
three_rows = run plain_codec setup []

-- What the tests of the store compute with.
store : Unit {0}
unfolding plain_codec run answer create update prepare verified_identity insert_row
    update_transaction update_rows has_id find_row is_key in_scope satisfies_checks not_blank
    is_stale new_row updated_row text_eq str trim_space
store = tt

abbrev fresh_task : Task ℕ ℕ
fresh_task = task (str "new") 5

created_now :
    create plain_codec no_faults 9 (some alice) (some fresh_task) three_rows
    ≡ (ok 1, (create plain_codec no_faults 9 (some alice) (some fresh_task) three_rows).1)
unfolding store
created_now = refl

create-CreateContract_example :
    CreateContract plain_codec alice fresh_task 1 three_rows
      (create plain_codec no_faults 9 (some alice) (some fresh_task) three_rows).1
create-CreateContract_example =
    create-CreateContract plain_codec plain_codec-IsFaithful no_faults 9 alice fresh_task 1
      three_rows (create plain_codec no_faults 9 (some alice) (some fresh_task) three_rows).1
      created_now

abbrev behind : Table
behind = (update plain_codec no_faults 9 (some alice) (some two) (some 1) three_rows).1

updated_now :
    update plain_codec no_faults 9 (some alice) (some two) (some 1) three_rows ≡ (ok 2, behind)
unfolding store
updated_now = refl

update-UpdateContract_example : UpdateContract plain_codec alice two (some 1) 2 three_rows behind
update-UpdateContract_example =
    update-UpdateContract plain_codec plain_codec-IsFaithful no_faults 9 alice two (some 1) 2
      three_rows behind updated_now

no_lost_update_example :
    update plain_codec no_faults 11 (some alice) (some two) (some 1) (run plain_codec [] behind)
    ≢ (ok 2, behind)
no_lost_update_example =
    no_lost_update plain_codec [] no_faults no_faults 9 11 alice two two 1 2 2 three_rows behind
      behind refl updated_now

stale_refused :
    answer plain_codec (update_call no_faults 9 (some alice) (some one) (some 1)) three_rows
    ≡ (err concurrent_modification, three_rows)
unfolding store
stale_refused = refl

abbrev unheard : Faults
unheard = record no_faults { answer_lost = true }

uncertain :
    update plain_codec unheard 9 (some alice) (some two) (some 1) three_rows
    ≡ (err database_failed, behind)
unfolding store
uncertain = refl

failed_update_example :
    (behind ≡ three_rows)
    ⊎ ((database_failed ≡ database_failed)
        × (true ≡ true)
        × ((v : ℕ) × (update plain_codec
                (answered unheard)
                9
                (some alice)
                (some two)
                (some 1)
                three_rows
              ≡ (ok v, behind)))
        × NeverAgain plain_codec alice (str "two") 1 behind)
failed_update_example =
    failed_update plain_codec unheard 9 alice two 1 database_failed three_rows behind uncertain

run-IsWellFormed_example : IsWellFormed (run plain_codec setup [])
run-IsWellFormed_example = run-IsWellFormed plain_codec setup [] tt

away : CallIsAway plain_codec (update_call no_faults 9 (some bob) (some one) none) alice (str "one")
unfolding str
away = inr (λ same. cc)

abbrev request : ListRequest
request = record {
  context_id = [];
  status = none;
  status_timestamp_after = none;
  page_size = pos 1;
  page_token = [];
  history_length = some (pos 2);
  include_artifacts = false;
}

answers_in_scope_example :
    (get plain_codec no_faults (some alice) (str "bobs") (select (in_scope alice) three_rows)
      ≡ get plain_codec no_faults (some alice) (str "bobs") three_rows)
    × (list_tasks plain_codec plain_text text_less no_faults
          (some alice)
          (some request)
          (select (in_scope alice) three_rows)
        ≡ list_tasks plain_codec plain_text text_less no_faults
            (some alice)
            (some request)
            three_rows)
    × ((update plain_codec no_faults 9
          (some alice)
          (some two)
          none
          (select (in_scope alice) three_rows)).0
        ≡ (update plain_codec no_faults 9 (some alice) (some two) none three_rows).0)
answers_in_scope_example =
    answers_in_scope plain_codec plain_text text_less no_faults 9 alice (str "bobs") (some request)
      (some two) none three_rows

abbrev shown : Text → Task ℕ ℕ
shown id = record {
  id = id;
  context_id = str "c";
  state = str "working";
  status_timestamp = some 9;
  history = 7 ∷ 8 ∷ [];
  artifacts = [];
}

-- What the tests of the listing compute with.
listing : Unit {0}
unfolding store list_filter decode_rows shape_listed_task shape_history take_last row_before
    key_less text_less sort insert_sorted page_size_of
listing = tt

few_rows : length (select (list_filter alice request) three_rows) ≤ max_int
unfolding listing
few_rows = omega arith

enough_fuel : length (select (list_filter alice request) three_rows) < 3
unfolding listing
enough_fuel = omega arith

decoded_rows :
    decode_rows plain_codec request
      (sort (row_before text_less) (select (list_filter alice request) three_rows))
    ≡ ok (shown (str "one") ∷ shown (str "two") ∷ [])
unfolding listing
decoded_rows = refl

size_of_one : page_size_of request.page_size ≡ ok 1
unfolding listing
size_of_one = refl

IsWhole-alice : IsWhole alice
unfolding listing
IsWhole-alice = (refl, refl, refl)

follow_complete_example :
    follow plain_codec plain_text text_less 3 alice request [] three_rows
    ≡ some (ok (shown (str "one") ∷ shown (str "two") ∷ []))
follow_complete_example =
    follow_complete plain_codec plain_text plain_text-IsTokenText text_less text_less-IsCollation 3
      alice request 1 three_rows (shown (str "one") ∷ shown (str "two") ∷ []) IsWhole-alice
      size_of_one (run-IsWellFormed plain_codec setup [] tt) few_rows decoded_rows enough_fuel

decode-encode_page_token_example :
    decode_page_token plain_text (encode_page_token plain_text 8 (str "a_b")) ≡ some (8, str "a_b")
unfolding str
decode-encode_page_token_example =
    decode-encode_page_token plain_text plain_text-IsTokenText 8 (str "a_b") cc

shape_listed_task_example :
    IsShownHistory request.history_length one.history (shape_listed_task one request).history
    × ((shape_listed_task one request).artifacts
        ≡ (if request.include_artifacts then one.artifacts else []))
    × ((shape_listed_task one request).id ≡ one.id)
    × ((shape_listed_task one request).context_id ≡ one.context_id)
    × ((shape_listed_task one request).state ≡ one.state)
    × ((shape_listed_task one request).status_timestamp ≡ one.status_timestamp)
shape_listed_task_example = shape_listed_task_lem one request
