-- ===== src/Tests/Snapshots.antt =====
-- A snapshot that was copied while it was in progress: the table has a row of it.
use es_snapshot_restore.Base.{
  ℕ, String, ◌≡◌, refl, arith, true, false, Option, none, some, List, [], ◌∷◌, ◌==◌, if◌then◌else◌,
  ok, Bool-cases, inl, inr, ap, eq_iff,
}
use es_snapshot_restore.Db.{EsIndex, EsSnapshot, Database}
use es_snapshot_restore.K8s.{lookup}
use es_snapshot_restore.Elastic.{Search}
use es_snapshot_restore.Http.Latest.{query_latest_snapshots_via_index}
use es_snapshot_restore.Flow.Stale.{SnapshotTable, is_row, jobs, jobs-stale}
use es_snapshot_restore.Tests.Demo.{demo_times}

-- A table with room for one row, which a batch leaves as it is.
abbrev Place : Type 0
Place = Option (EsSnapshot ℕ)

abbrev row_of : String → Place → Option (EsSnapshot ℕ)
row_of name none = none
row_of name (some s) = if s.snapshot == name then some s else none

abbrev put_rows : List (EsSnapshot ℕ) → Place → Place
put_rows [] w = w
put_rows (r ∷ rs) none = some r
put_rows (r ∷ rs) (some s) = some s

abbrev complete : Place → List (EsSnapshot ℕ)
complete none = []
complete (some s) = if s.state == "SUCCESS" then s ∷ [] else []

abbrev place_database : Database ℕ Place
place_database = record {
  find_tasks = λ st w. ok [];
  find_indices = λ st w. ok [];
  find_snapshots = λ st w. ok (complete w);
  create_tasks = λ ts w. (w, none);
  create_indices = λ clause rows w. (w, none);
  create_snapshots = λ clause rows w. (put_rows rows w, none);
  update_tasks = λ rows c w. (w, none);
}

table : SnapshotTable place_database
table = record {
  row_of = row_of;
  overwrites = λ clause rows w name s keeps found. (s, overwritten rows w name s found, refl);
  satisfies = λ text args s. s.state == "SUCCESS";
  selects = λ text args st w s rest asked found. selected w s rest found;
  reads = λ name s done. (eq_iff s.state "SUCCESS").0 done;
}
  where
    overwritten :
        (rows : List (EsSnapshot ℕ)) (w : Place) (name : String) (s : EsSnapshot ℕ)
        → row_of name w ≡ some s
        → row_of name (put_rows rows w) ≡ some s
    overwritten [] w name s found = found
    overwritten (r ∷ rs) none name s found = cc found
    overwritten (r ∷ rs) (some u) name s found = found

    selected :
        (w : Place) (s : EsSnapshot ℕ) (rest : List (EsSnapshot ℕ))
        → ok (complete w) ≡ ok (s ∷ rest)
        → (row_of s.snapshot w ≡ some s) × ((s.state == "SUCCESS") ≡ true)
    selected none s rest found = cc found
    selected (some x) s rest found = elim (Bool-cases (x.state == "SUCCESS")) [
      | inl done ↦
          let same : x ≡ s = ground (arith, found, done) in
          (
            rw ((eq_iff x.snapshot s.snapshot).1 (ap (λ u. u.snapshot) same)) (ap some same),
            rw same at done,
          )
      | inr other ↦ absurd (ground (arith, found, other))
    ]

abbrev snapshot : EsSnapshot ℕ
snapshot = record {
  snapshot = "snap";
  repository = "s3";
  state = "IN_PROGRESS";
  start_time = record { time = 9 };
  indices = "logs" ∷ [];
}

-- Elasticsearch lists it as complete by now.
abbrev lists : Search Place
lists = record {
  cat_indices = λ r w. ok (ok []);
  cat_repositories = λ r w. ok (ok (record { id = "s3" } ∷ []));
  cat_snapshots =
      λ r w. ok (ok (record { id = "snap"; repository = "s3"; status = "SUCCESS" } ∷ []));
  snapshot_get = λ r w. ok (
      ok (
        record {
          snapshot = "snap";
          repository = "s3";
          state = "SUCCESS";
          start_time = "2024-01-02";
          indices = "logs" ∷ [];
        }
        ∷ []));
  snapshot_restore = λ r w. (w, ok (record { status_code = 200; body = "" }));
  cat_recovery = λ r w. ok (ok []);
}

abbrev index : EsIndex ℕ
index = record { name = "logs"; index_create_at = record { time = 7 }; store_size = "10gb" }

jobs-stale_example :
    is_row "snap" (
      lookup "logs" (
        query_latest_snapshots_via_index place_database
          (index ∷ [])
          (jobs demo_times lists place_database ((λ w. w) ∷ (λ w. w) ∷ []) (some snapshot))))
    ≡ false
unfolding table
jobs-stale_example =
    jobs-stale place_database table demo_times lists "snap" ((λ w. w) ∷ (λ w. w) ∷ [])
      (some snapshot) (index ∷ []) "logs" (λ name w. refl, (λ name w. refl, tt))
      (snapshot, refl, λ done. cc (ap (λ u. u == "SUCCESS") done))
