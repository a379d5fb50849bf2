-- ===== src/Http/Query/Spans.antt =====
-- Which indices `QueryIndexResultViaTime` returns.
use es_snapshot_restore.Base.{
  String, ◌≡◌, ◌≢◌, sym, ap, ◌∙◌, true, none, some, List, [], ◌∷◌, ◌++◌, map, ◌↔◌, ok, arith,
  eq_iff, >>=-eq-ok,
}
use mathlib.Core.List.{Mem, mem-append, append-nil}
use text.Mathlib.TextLemmas as Text
use mathlib.Core.Logic.Or
use es_snapshot_restore.Db.{EsIndex, Statement, query_all, Database}
use es_snapshot_restore.Http.Query.{
  pattern, newest_first, before_start_first, after_start, after_start_before_end, both, before_end,
  at_any_time, name_query, query_index_result_via_time,
}
use es_snapshot_restore.Http.Query.Sql.{
  Atom, until, since, or_text, groups, name_query-groups, Meaning, Reads, Selects, asked,
  eval_or-groups,
}

abbrev with_text : String → List String → Statement
with_text text args = record { where_ = some (text, args); order = some newest_first; limit = none }

-- The statement for the disjunction.
abbrev dnf_statement : String → List String → List Atom → List String → Statement
dnf_statement n ns extra times = record {
  where_ = some (or_text (groups ns extra), map pattern (n ∷ ns) ++ times);
  order = some newest_first;
  limit = none;
}

before_end-dnf :
    (n : String) (ns : List String) (end : String)
    → before_end (n ∷ ns) end ≡ dnf_statement n ns (until ∷ []) (end ∷ [])
unfolding before_end query_all
before_end-dnf n ns end =
    ap (λ (s : String). with_text s (map pattern (n ∷ ns) ++ (end ∷ [])))
      (name_query-groups n ns (until ∷ []))

after_start-dnf :
    (n : String) (ns : List String) (start : String)
    → after_start (n ∷ ns) start ≡ dnf_statement n ns (since ∷ []) (start ∷ [])
unfolding after_start query_all
after_start-dnf n ns start =
    ap (λ (s : String). with_text s (map pattern (n ∷ ns) ++ (start ∷ [])))
      (name_query-groups n ns (since ∷ []))

after_start_before_end-dnf :
    (n : String) (ns : List String) (start end : String)
    → after_start_before_end (n ∷ ns) start end
      ≡ dnf_statement n ns (since ∷ until ∷ []) (start ∷ end ∷ [])
unfolding after_start_before_end query_all
after_start_before_end-dnf n ns start end =
    ap (λ (s : String). with_text s (map pattern (n ∷ ns) ++ (start ∷ end ∷ [])))
      (name_query-groups n ns (since ∷ until ∷ []))

at_any_time-dnf : (n : String) (ns : List String) → at_any_time (n ∷ ns) ≡ dnf_statement n ns [] []
unfolding at_any_time query_all
at_any_time-dnf n ns =
    ap (λ (s : String). with_text s (map pattern (n ∷ ns)))
      (sym (Text.append-nil (name_query (n ∷ ns))) ∙ name_query-groups n ns [])
    ∙ ap (with_text (or_text (groups ns []))) (sym (append-nil (map pattern (n ∷ ns))))

module _ {T W : Type 0} (m : Meaning T W) (db : Database T W) where
  Selects-asked :
      Selects m db
      → (n : String) (ns : List String) (extra : List Atom) (times : List String) (w : W)
        (rows : List (EsIndex T))
      → Reads m (groups ns extra)
      → db.find_indices (dnf_statement n ns extra times) w ≡ ok rows
      → (r : EsIndex T) → Mem r rows ↔ (Mem r (m.stored w) × (asked m n ns extra times r ≡ true))
  Selects-asked selects n ns extra times w rows read h r =
      rw (eval_or-groups m n ns extra times r) at (
        selects (or_text (groups ns extra)) (groups ns extra) (map pattern (n ∷ ns) ++ times)
          (some newest_first) w rows read h r)

  -- With an end and no start, on a database that finds the rows that satisfy a condition and reads
  -- AND before OR: what a call that succeeds returns is every stored index that matches the last
  -- of the names and was created by then, and every one that matches another of the names, whenever
  -- it was created; and no other.
  pub via_end :
      Selects m db
      → (n : String) (ns : List String) (end : String) (w : W) (rows : List (EsIndex T)) → end ≢ ""
      → Reads m (groups ns (until ∷ []))
      → query_index_result_via_time db (n ∷ ns) "" end w ≡ ok rows
      → (r : EsIndex T)
      → Mem r rows ↔ (Mem r (m.stored w) × (asked m n ns (until ∷ []) (end ∷ []) r ≡ true))
  unfolding query_index_result_via_time
  via_end selects n ns end w rows some_end read h =
      Selects-asked selects n ns (until ∷ []) (end ∷ []) w rows read (
        ap (λ st. db.find_indices st w) (sym (before_end-dnf n ns end))
        ∙ ground (arith, eq_iff end ""))

  both-parts :
      (first second : Statement) (w : W) (rows : List (EsIndex T))
      → both db first second w ≡ ok rows
      → (xs : List (EsIndex T)) × (ys : List (EsIndex T)) × (db.find_indices first w ≡ ok xs)
        × (db.find_indices second w ≡ ok ys)
        × (xs ++ ys ≡ rows)
  unfolding both
  both-parts first second w rows h =
      let (xs, h', first_ok) = >>=-eq-ok (db.find_indices first w) _ h in
      let (ys, h'', second_ok) = >>=-eq-ok (db.find_indices second w) _ h' in
      (xs, ys, first_ok, second_ok, cc h'')

  -- With a start and no end, on such a database: a call that succeeds returns what the query for the
  -- newest index up to the start yields, and behind that every stored index that matches the last of
  -- the names and was created since the start, every one that matches another of the names, whenever
  -- it was created, and no other, whether or not the first query has yielded it already.
  pub via_start :
      Selects m db
      → (n : String) (ns : List String) (start : String) (w : W) (rows : List (EsIndex T))
      → start ≢ ""
      → Reads m (groups ns (since ∷ []))
      → query_index_result_via_time db (n ∷ ns) start "" w ≡ ok rows
      → (xs : List (EsIndex T)) × (ys : List (EsIndex T)) × (rows ≡ xs ++ ys)
        × (db.find_indices (before_start_first (n ∷ ns) start) w ≡ ok xs)
        × ((r : EsIndex T)
            → Mem r ys ↔ (Mem r (m.stored w) × (asked m n ns (since ∷ []) (start ∷ []) r ≡ true)))
  unfolding query_index_result_via_time
  via_start selects n ns start w rows some_start read h =
      let (xs, ys, first, found, joined) =
        both-parts (before_start_first (n ∷ ns) start) (after_start (n ∷ ns) start) w rows
          (ground (arith, eq_iff start "")) in
      (
        xs,
        ys,
        sym joined,
        first,
        Selects-asked selects n ns (since ∷ []) (start ∷ []) w ys read
            (ap (λ st. db.find_indices st w) (sym (after_start-dnf n ns start)) ∙ found),
      )

  -- With a start and an end, on such a database: a call that succeeds returns every stored index
  -- that matches the last of the names and was created between them, and every one that matches
  -- another of the names, whenever it was created.
  pub via_span :
      Selects m db
      → (n : String) (ns : List String) (start end : String) (w : W) (rows : List (EsIndex T))
      → start ≢ ""
      → end ≢ ""
      → Reads m (groups ns (since ∷ until ∷ []))
      → query_index_result_via_time db (n ∷ ns) start end w ≡ ok rows
      → (r : EsIndex T) → Mem r (m.stored w)
      → asked m n ns (since ∷ until ∷ []) (start ∷ end ∷ []) r ≡ true
      → Mem r rows
  unfolding query_index_result_via_time
  via_span selects n ns start end w rows some_start some_end read h r stored fits =
      let (xs, ys, _, found, joined) =
        both-parts (before_start_first (n ∷ ns) start) (after_start_before_end (n ∷ ns) start end) w
          rows (ground (arith, eq_iff start "", eq_iff end "")) in
      let found' : db.find_indices (dnf_statement n ns (since ∷ until ∷ []) (start ∷ end ∷ [])) w
          ≡ ok ys =
        ap (λ st. db.find_indices st w) (sym (after_start_before_end-dnf n ns start end)) ∙ found in
      let second : Mem r ys =
        (Selects-asked selects n ns (since ∷ until ∷ []) (start ∷ end ∷ []) w ys read found' r).1
          (stored, fits) in
      let both_lists : Mem r (xs ++ ys) = mem-append.1 (Or.inr second) in rw joined at both_lists

  -- With neither, on such a database: what a call that succeeds returns is every stored index that
  -- matches one of the names, and no other.
  pub via_names :
      Selects m db
      → (n : String) (ns : List String) (w : W) (rows : List (EsIndex T)) → Reads m (groups ns [])
      → query_index_result_via_time db (n ∷ ns) "" "" w ≡ ok rows
      → (r : EsIndex T) → Mem r rows ↔ (Mem r (m.stored w) × (asked m n ns [] [] r ≡ true))
  unfolding query_index_result_via_time
  via_names selects n ns w rows read h =
      Selects-asked selects n ns [] [] w rows read
        (ap (λ st. db.find_indices st w) (sym (at_any_time-dnf n ns)) ∙ h)
