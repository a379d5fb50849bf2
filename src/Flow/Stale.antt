-- ===== src/Flow/Stale.antt =====
-- A snapshot that the cron job has copied before it was complete.
use es_snapshot_restore.Base.{
  if◌then◌else◌, Bool-cases, inl, inr, eq_iff, String, ◌≡◌, ◌≢◌, refl, sym, ◌∙◌, Bool, true, false,
  ◌||◌, Option, none, some, List, [], ◌∷◌, any, ◌==◌, if◌then◌else◌, Result, ok, err, arith,
}
use es_snapshot_restore.Db.{
  EsIndex, EsSnapshot, OnConflict, Statement, query_all, Database, create_snapshot_clause,
}
use es_snapshot_restore.Db.Time.{TimeLib}
use es_snapshot_restore.Elastic.{Search}
use es_snapshot_restore.K8s.{lookup}
use es_snapshot_restore.Cron.{run_all_snapshot}
use es_snapshot_restore.Http.Latest.{
  snapshot_query, only_row, latest, named, query_latest_snapshots_via_index,
  query_latest_snapshots_lem,
}

-- The column of the state, under either of the names by which gorm knows it.
abbrev pub is_state : String → Bool
is_state c = c == "state" || c == "State"

-- What is assumed of the table of snapshots: its unique index gives each name at most one row; a
-- batch that meets a row of its name overwrites the columns that the clause lists and no other; and a
-- query yields rows of the table that satisfy its condition.
pub record SnapshotTable {T W : Type 0} (db : Database T W) : Type 0 where
  pub row_of : String → W → Option (EsSnapshot T)
  pub overwrites :
      (clause : OnConflict) (rows : List (EsSnapshot T)) (w : W) (name : String) (s : EsSnapshot T)
      → any is_state clause.do_updates ≡ false
      → row_of name w ≡ some s
      → (s' : EsSnapshot T) × (row_of name (db.create_snapshots clause rows w).0 ≡ some s')
        × (s'.state ≡ s.state)
  pub satisfies : String → List String → EsSnapshot T → Bool
  pub selects :
      (text : String) (args : List String) (st : Statement) (w : W) (s : EsSnapshot T)
      (rest : List (EsSnapshot T))
      → st.where_ ≡ some (text, args)
      → db.find_snapshots st w ≡ ok (s ∷ rest)
      → (row_of s.snapshot w ≡ some s) × (satisfies text args s ≡ true)
  pub reads :
      (name : String) (s : EsSnapshot T)
      → satisfies "state = 'SUCCESS' AND JSON_CONTAINS(indices,JSON_QUOTE(?))" (name ∷ []) s ≡ true
      → s.state ≡ "SUCCESS"

-- Whether it is the row of the name.
abbrev pub is_row : {T : Type 0} → String → Option (EsSnapshot T) → Bool
is_row name none = false
is_row name (some r) = r.snapshot == name

module _ {T W : Type 0} (lib : TimeLib T) (es : Search W) (db : Database T W) where
  -- Runs of the job, before each of which others may have changed the world.
  abbrev pub jobs : List (W → W) → W → W
  jobs [] w = w
  jobs (others ∷ runs) w = jobs runs (run_all_snapshot lib es db (others w))

module _ {T W : Type 0} (db : Database T W) (table : SnapshotTable db) where
  open table use {row_of}

  -- The table has a row of the name, and its state is not SUCCESS.
  abbrev pub IsStale : String → W → Type 0
  IsStale name w = (s : EsSnapshot T) × (row_of name w ≡ some s) × (s.state ≢ "SUCCESS")

  -- Others leave the table as it is.
  abbrev pub LeaveRows : List (W → W) → Type 0
  LeaveRows [] = Unit {0}
  LeaveRows (others ∷ runs) =
      ((name : String) (w : W) → row_of name (others w) ≡ row_of name w) × LeaveRows runs

  run-IsStale :
      (lib : TimeLib T) (es : Search W) (name : String) (w : W)
      → IsStale name w
      → IsStale name (run_all_snapshot lib es db w)
  unfolding run_all_snapshot create_snapshot_clause
  run-IsStale lib es name w (s, found, other) =
      let (s', kept, same) = table.overwrites create_snapshot_clause _ w name s refl found in
      (s', kept, λ done. other (sym same ∙ done))

  jobs-IsStale :
      (lib : TimeLib T) (es : Search W) (name : String) (runs : List (W → W)) (w : W)
      → LeaveRows runs
      → IsStale name w
      → IsStale name (jobs lib es db runs w)
  jobs-IsStale lib es name [] w leave h = h
  jobs-IsStale lib es name (others ∷ runs) w (same, leave) (s, found, other) =
      jobs-IsStale lib es name runs (run_all_snapshot lib es db (others w)) leave
        (run-IsStale lib es name (others w) (s, same name w ∙ found, other))

  latest-row :
      (j : String) (w : W) (r : EsSnapshot T)
      → latest db j w ≡ some r
      → (row_of r.snapshot w ≡ some r) × (r.state ≡ "SUCCESS")
  unfolding latest only_row snapshot_query query_all
  latest-row j w r h = by_rows (db.find_snapshots (snapshot_query j) w) refl h
    where
      by_rows :
          (rows : Result (List (EsSnapshot T)))
          → db.find_snapshots (snapshot_query j) w ≡ rows
          → only_row db rows ≡ some r
          → (row_of r.snapshot w ≡ some r) × (r.state ≡ "SUCCESS")
      by_rows (err e) found one = cc one
      by_rows (ok []) found one = cc one
      by_rows (ok (s ∷ t ∷ ss)) found one = cc one
      by_rows (ok (s ∷ [])) found one =
          let (stored, fits) = table.selects _ (j ∷ []) (snapshot_query j) w s [] refl found in
          ground (arith, stored, table.reads j s fits, one)

  latest-other :
      (j name : String) (w : W)
      → IsStale name w
      → (o : Option (EsSnapshot T)) → latest db j w ≡ o
      → is_row name o ≡ false
  latest-other j name w stale none found = refl
  latest-other j name w (s, stored, other) (some r) found = elim (Bool-cases (r.snapshot == name)) [
    | inl same ↦
        let (row, done) = latest-row j w r found in
        let names : r.snapshot ≡ name = (eq_iff r.snapshot name).0 same in
        absurd (other (ground (arith, row, done, stored, names)))
    | inr differs ↦ differs
  ]

  chosen-other :
      (b : Bool) (o : Option (EsSnapshot T)) (name : String)
      → is_row name o ≡ false
      → is_row name (if b then o else none) ≡ false
  chosen-other true o name h = h
  chosen-other false o name h = refl

  -- On a table with one row for each name of a snapshot, where a batch overwrites just the columns
  -- that its clause lists: if the row of a snapshot has another state than SUCCESS, then after any
  -- number of runs of the job, whatever Elasticsearch lists by then, the query for the newest snapshots
  -- yields that snapshot for no index.
  pub jobs-stale :
      (lib : TimeLib T) (es : Search W) (name : String) (runs : List (W → W)) (w : W)
      (is : List (EsIndex T)) (j : String)
      → LeaveRows runs
      → IsStale name w
      → is_row name (lookup j (query_latest_snapshots_via_index db is (jobs lib es db runs w)))
        ≡ false
  jobs-stale lib es name runs w is j leave h =
      let w' = jobs lib es db runs w in
      rw (query_latest_snapshots_lem db is w' j) (
        chosen-other (named db j is) (latest db j w') name
          (latest-other j name w' (jobs-IsStale lib es name runs w leave h) (latest db j w') refl))
