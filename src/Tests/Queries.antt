-- ===== src/Tests/Queries.antt =====
-- The queries for a span of time against a database that reads two conditions.
use mathlib.Core.List.{filter, Mem, mem-filter, mem-cons_self, mem-append}
use mathlib.Core.Logic.Or
use es_snapshot_restore.Base.{
  ap, ◌∙◌, map, Error, ℕ, String, ◌≡◌, refl, Bool, true, false, Option, none, some, List, [], ◌∷◌,
  ◌++◌, ◌==◌, leb, if◌then◌else◌, external, ok, err, Result, ◌↔◌,
}
use es_snapshot_restore.Db.{EsIndex, Statement, Database, query_all, create_index_clause}
use es_snapshot_restore.Http.Query.{
  query_index_result_via_time, at_any_time, before_end, before_start_first, after_start,
  after_start_before_end, both, name_query,
}
use es_snapshot_restore.Http.Query.Sql.{
  Atom, name_like, until, since, Meaning, Selects, asked, eval_or,
}
use es_snapshot_restore.Http.Query.Spans.{via_end, via_start, via_span}
use es_snapshot_restore.Elastic.{Index, get_all_index}
use es_snapshot_restore.Cron.{listed, run_all_index}
use es_snapshot_restore.Cron.Rows.{row_of, run_all_index_lem}
use es_snapshot_restore.Flow.Listed.{Upserts, distinct_names, run_all_index-found}
use es_snapshot_restore.Tests.Demo.{demo_search, demo_times, World, demo_database, demo_world}

is_true : (b : Bool) → Dec (b ≡ true)
is_true true = yes refl
is_true false = no (λ e. cc e)

abbrev reads : String → Option (List (List Atom))
reads text =
    if text == "name LIKE ? AND index_create_at <= ?"
    then some ((name_like ∷ until ∷ []) ∷ [])
    else if text == "name LIKE ? OR name LIKE ? AND index_create_at >= ? AND index_create_at <= ?"
    then some ((name_like ∷ []) ∷ (name_like ∷ since ∷ until ∷ []) ∷ [])
    else if text == "name LIKE ? AND index_create_at >= ?"
    then some ((name_like ∷ since ∷ []) ∷ [])
    else if text == "name LIKE ?"
    then some ((name_like ∷ []) ∷ [])
    else none

-- Names match by equality with the pattern's inside; days are "7" and "8".
abbrev day : String → ℕ
day s = if s == "7" then 7 else 8

abbrev meaning : Meaning ℕ World
meaning = record {
  reads = reads;
  like = λ name p. if name == "logs" then p == "%logs%" else p == "%junk%";
  at_most = λ t s. leb t.time (day s);
  at_least = λ t s. leb (day s) t.time;
  stored = λ w. w.indices;
}

abbrev matching : List (List Atom) → List String → World → List (EsIndex ℕ)
matching ds args w =
    filter {p = λ r. eval_or meaning ds args r ≡ true} (λ r. is_true (eval_or meaning ds args r))
      w.indices

abbrev read_find : Option (List (List Atom)) → List String → World → Result (List (EsIndex ℕ))
read_find none args w = err (external "syntax")
read_find (some ds) args w = ok (matching ds args w)

-- A query with a limit finds nothing here.
abbrev find : Statement → World → Result (List (EsIndex ℕ))
find st w = elim st.limit [
  | some n ↦ ok []
  | none ↦ elim st.where_ [
    | none ↦ ok w.indices
    | some (text, args) ↦ read_find (reads text) args w
  ]
]

abbrev database : Database ℕ World
database = record demo_database { find_indices = find }

selects : Selects meaning database
selects text ds args order w rows read h r =
    let e : matching ds args w ≡ rows = cc (rw read at h) in
    rw e at (
      mem-filter {p = λ s. eval_or meaning ds args s ≡ true}
        (λ s. is_true (eval_or meaning ds args s)) {l = w.indices} {x = r})

abbrev logs : EsIndex ℕ
logs = record { name = "logs"; index_create_at = record { time = 7 }; store_size = "10gb" }

abbrev junk : EsIndex ℕ
junk = record { name = "junk"; index_create_at = record { time = 8 }; store_size = "?" }

found_by_end : query_index_result_via_time database ("logs" ∷ []) "" "7" demo_world ≡ ok (logs ∷ [])
unfolding query_index_result_via_time before_end query_all name_query is_true
found_by_end = refl

via_end_example :
    Mem logs (logs ∷ [])
    ↔ (Mem logs demo_world.indices × (asked meaning "logs" [] (until ∷ []) ("7" ∷ []) logs ≡ true))
via_end_example =
    via_end meaning database selects "logs" [] "7" demo_world (logs ∷ []) (λ e. cc e) refl
      found_by_end logs

found_since : query_index_result_via_time database ("logs" ∷ []) "7" "" demo_world ≡ ok (logs ∷ [])
unfolding query_index_result_via_time both before_start_first after_start query_all name_query
    is_true
found_since = refl

via_start_example :
    (xs : List (EsIndex ℕ)) × (ys : List (EsIndex ℕ)) × (logs ∷ [] ≡ xs ++ ys)
    × (find (before_start_first ("logs" ∷ []) "7") demo_world ≡ ok xs)
    × ((r : EsIndex ℕ)
        → Mem r ys
          ↔ (Mem r demo_world.indices × (asked meaning "logs" [] (since ∷ []) ("7" ∷ []) r ≡ true)))
via_start_example =
    via_start meaning database selects "logs" [] "7" demo_world (logs ∷ []) (λ e. cc e) refl
      found_since

found_in_span :
    query_index_result_via_time database ("logs" ∷ "junk" ∷ []) "7" "8" demo_world
    ≡ ok (logs ∷ junk ∷ [])
unfolding query_index_result_via_time both before_start_first after_start_before_end query_all
    name_query is_true
found_in_span = refl

via_span_example : Mem logs (logs ∷ junk ∷ [])
via_span_example =
    via_span meaning database selects "logs" ("junk" ∷ []) "7" "8" demo_world (logs ∷ junk ∷ [])
      (λ e. cc e) (λ e. cc e) refl found_in_span logs mem-cons_self refl

-- The database keeps what is written behind what it has.
upserts : Upserts meaning database
upserts clause rows w w' by_name written distinct r mem =
    let kept : w.indices ++ rows ≡ w'.indices =
      ap (λ (x : World × Option Error). x.0.indices) written in
    let found : Mem r (w.indices ++ rows) = mem-append.1 (Or.inr mem) in
    (r, rw kept at found, refl, λ listed. refl)

abbrev listed_index : Index
listed_index = record { name = "logs"; create_at = "2024-01-02"; store_size = "10gb" }

abbrev new_row : EsIndex ℕ
new_row = row_of demo_times listed_index

abbrev copied : World
copied = record demo_world { indices = demo_world.indices ++ (new_row ∷ []) }

writes :
    database.create_indices create_index_clause
      (map (row_of demo_times) (listed (get_all_index demo_search demo_world)))
      demo_world
    ≡ (copied, none)
unfolding get_all_index
writes = refl

is_listed : listed (get_all_index demo_search demo_world) ≡ listed_index ∷ []
unfolding get_all_index
is_listed = refl

distinct :
    distinct_names (map (row_of demo_times) (listed (get_all_index demo_search demo_world))) ≡ true
unfolding get_all_index
distinct = refl

found_copied :
    query_index_result_via_time database
      ("logs" ∷ [])
      ""
      ""
      (run_all_index demo_times demo_search database demo_world)
    ≡ ok (logs ∷ new_row ∷ [])
unfolding query_index_result_via_time at_any_time query_all name_query is_true
found_copied =
    ap (query_index_result_via_time database ("logs" ∷ []) "" "")
      (run_all_index_lem demo_times demo_search database demo_world ∙ ap (λ r. r.0) writes)

run_all_index-found_example :
    (r : EsIndex ℕ) × Mem r (logs ∷ new_row ∷ []) × (r.name ≡ "logs") × (r.store_size ≡ "10gb")
run_all_index-found_example =
    run_all_index-found meaning database upserts selects demo_times demo_search "logs" [] demo_world
      copied (logs ∷ new_row ∷ []) writes distinct refl found_copied listed_index
      (rw is_listed mem-cons_self) refl
