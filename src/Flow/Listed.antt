-- ===== src/Flow/Listed.antt =====
-- What the cron job copies, the query of the HTTP server finds.
use mathlib.Core.List.{Mem, mem-map_of_mem}
use es_snapshot_restore.Base.{
  String, ◌≡◌, ap, ◌∙◌, Bool, true, not, ◌&&◌, ◌||◌, refl, none, List, [], ◌∷◌, map, any, ◌==◌,
  arith, ok,
}
use es_snapshot_restore.Db.{EsIndex, OnConflict, Database, create_index_clause}
use es_snapshot_restore.Db.Time.{TimeLib}
use es_snapshot_restore.Elastic.{Index, Search, get_all_index}
use es_snapshot_restore.Cron.{listed, run_all_index}
use es_snapshot_restore.Cron.Rows.{row_of, run_all_index_lem}
use es_snapshot_restore.Http.Query.{pattern, query_index_result_via_time}
use es_snapshot_restore.Http.Query.Sql.{Meaning, Reads, Selects, groups, asked}
use es_snapshot_restore.Http.Query.Spans.{via_names}

-- The column of the size, under either of the names by which gorm knows it.
abbrev pub is_size : String → Bool
is_size c = c == "store_size" || c == "StoreSize"

-- No two rows have one name.
abbrev pub distinct_names : {T : Type 0} → List (EsIndex T) → Bool
distinct_names [] = true
distinct_names (r ∷ rs) = not (any (λ s. s.name == r.name) rs) && distinct_names rs

module _ {T W : Type 0} (m : Meaning T W) (db : Database T W) where
  -- What is assumed of a write of rows with distinct names, by a clause of which the name decides a
  -- conflict: for each there is then a row of its name, and if the clause overwrites the size, it has the
  -- size that was written.
  abbrev pub Upserts : Type 0
  Upserts =
      (clause : OnConflict) (rows : List (EsIndex T)) (w w' : W)
      → clause.columns ≡ "name" ∷ []
      → db.create_indices clause rows w ≡ (w', none)
      → distinct_names rows ≡ true
      → (r : EsIndex T) → Mem r rows
      → (s : EsIndex T) × Mem s (m.stored w')
        × (s.name ≡ r.name)
        × (any is_size clause.do_updates ≡ true → s.store_size ≡ r.store_size)

  asked-any :
      (n : String) (ns : List String) (r : EsIndex T)
      → any (λ p. m.like r.name (pattern p)) (n ∷ ns) ≡ true
      → asked m n ns [] [] r ≡ true
  asked-any n [] r h = ground arith
  asked-any n (p ∷ ns) r h = ground (arith, asked-any p ns r)

  -- On a database that finds the rows that satisfy a condition, and that on a conflict of names
  -- overwrites the size of a row if the clause of the write lists it: if the indices that Elasticsearch has
  -- listed have distinct names and the job's write succeeds, then a query with names and no times that
  -- succeeds afterwards returns, for each index that Elasticsearch has listed and that matches one of the
  -- names, a row with its name and its size.
  pub run_all_index-found :
      Upserts
      → Selects m db
      → (lib : TimeLib T) (es : Search W) (n : String) (ns : List String) (w w' : W)
        (rows : List (EsIndex T))
      → db.create_indices create_index_clause (map (row_of lib) (listed (get_all_index es w))) w
        ≡ (w', none)
      → distinct_names (map (row_of lib) (listed (get_all_index es w))) ≡ true
      → Reads m (groups ns [])
      → query_index_result_via_time db (n ∷ ns) "" "" (run_all_index lib es db w) ≡ ok rows
      → (i : Index) → Mem i (listed (get_all_index es w))
      → any (λ p. m.like i.name (pattern p)) (n ∷ ns) ≡ true
      → (r : EsIndex T) × Mem r rows × (r.name ≡ i.name) × (r.store_size ≡ i.store_size)
  unfolding create_index_clause
  run_all_index-found upserts selects lib es n ns w w' rows written distinct read h i mem fits =
      let all = map (row_of lib) (listed (get_all_index es w)) in
      let after : run_all_index lib es db w ≡ w' =
        run_all_index_lem lib es db w ∙ ap (λ r. r.0) written in
      let (r, stored, name, size) =
        upserts create_index_clause all w w' refl written distinct (row_of lib i)
          (mem-map_of_mem (row_of lib) mem) in
      let query : query_index_result_via_time db (n ∷ ns) "" "" w' ≡ ok rows = rw after at h in
      (
        r,
        (via_names m db selects n ns w' rows read query r).1 (
          stored,
          asked-any n ns r (ap (λ u. any (λ p. m.like u (pattern p)) (n ∷ ns)) name ∙ fits),
        ),
        name,
        size refl,
      )
