-- ===== src/Cron.antt =====
-- internal/cron/job.go: the jobs that copy the indices and the snapshots into the database, and
-- `formatString` of internal/cron/logger.go.
pub mod Rows
pub mod Logger
pub mod Scheduler
use Prim.Native.Nat.{◌/◌}
use es_snapshot_restore.Base.{
  ℕ, zero, suc, ◌<>◌, ltb, String, Bool, true, false, Option, none, some, List, [], ◌∷◌, ◌++◌,
  Error, Result, ok, err, if◌then◌else◌,
}
use es_snapshot_restore.Db.{
  EsIndex, EsSnapshot, Database, create_index_clause, create_snapshot_clause,
}
use es_snapshot_restore.Db.Time.{TimeString, TimeLib, new_time_string}
use es_snapshot_restore.Elastic.{Index, Snapshot, Search, get_all_index, get_all_snapshot_details}

-- An error is logged and the loop goes on with what the call returned: the zero value.
abbrev pub listed : {A : Type 0} → Result (List A) → List A
listed (ok xs) = xs
listed (err e) = []

module _ {T : Type 0} (lib : TimeLib T) where
  pub time_or_zero : Result (TimeString T) → TimeString T
  time_or_zero (ok t) = t
  time_or_zero (err e) = record { time = lib.zero_time }

  -- The loop of `(*AllIndex).Run`.
  pub index_rows : List (EsIndex T) → List Index → List (EsIndex T)
  index_rows all [] = all
  index_rows all (i ∷ is) =
      let row : EsIndex T = record {
        name = i.name;
        index_create_at = time_or_zero (new_time_string lib i.create_at);
        store_size = i.store_size;
      } in
      index_rows (all ++ (row ∷ [])) is

  -- The loop of `(*AllSnapshot).Run`. The JSON of the names is modelled by their list.
  pub snapshot_rows : List (EsSnapshot T) → List Snapshot → List (EsSnapshot T)
  snapshot_rows all [] = all
  snapshot_rows all (s ∷ ss) =
      let row : EsSnapshot T = record {
        snapshot = s.snapshot;
        repository = s.repository;
        state = s.state;
        start_time = time_or_zero (new_time_string lib s.start_time);
        indices = s.indices;
      } in
      snapshot_rows (all ++ (row ∷ [])) ss

  module _ {W : Type 0} (es : Search W) (db : Database T W) where
    -- The error of the write is only logged.
    pub run_all_index : W → W
    unfolding index_rows
    run_all_index w =
        (db.create_indices create_index_clause (index_rows [] (listed (get_all_index es w))) w).0

    unfoldable pub run_all_snapshot : W → W
    unfolding snapshot_rows
    run_all_snapshot w =
        (db.create_snapshots create_snapshot_clause
          (snapshot_rows [] (listed (get_all_snapshot_details es w))) w).0

-- The loop of `formatString`, from `i` on, for `n` more rounds.
pub format_pairs : ℕ → ℕ → String → String
format_pairs zero i s = s
format_pairs (suc n) i s = format_pairs n (suc i) ((if ltb 0 i then s <> ", " else s) <> "%v=%v")

unfoldable pub format_string : ℕ → String
unfolding format_pairs
format_string n = format_pairs (n / 2) 0 (if ltb 0 n then "%s, " else "%s")
