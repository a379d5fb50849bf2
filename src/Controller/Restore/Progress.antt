-- ===== src/Controller/Restore/Progress.antt =====
-- When a restore is reported as done, and that it always comes to an end.
use es_snapshot_restore.Base.{ℤ, String, ◌≡◌, Bool, true, false, none, List, [], ◌∷◌, ◌==◌, ok}
use es_snapshot_restore.Utils.{success}
use es_snapshot_restore.Db.{Task, Database}
use es_snapshot_restore.Elastic.{Recovery, Search, get_restore_index_process}
use es_snapshot_restore.Controller.{Queued}
use es_snapshot_restore.Controller.Restore.{Wake, tick, time_out, set_status, task_query}

abbrev pub is_time_out : {W : Type 0} → Wake W → Bool
is_time_out (tick _) = false
is_time_out (time_out _) = true

module _ {T W : Type 0} (db : Database T W) (es : Search W) (key : String) (limit : ℤ) where
  open db use {find_tasks}

  -- The last thing that happened before `w'`: Elasticsearch reported the index as recovered, and
  -- its row was set to SUCCESS.
  pub record IsRestored (rows : List (Task T)) (t : Task T) (w' : W) : Type 0 where
    pub before : W
    pub first : Recovery
    pub others : List Recovery
    pub reported : get_restore_index_process es (t.index ∷ []) before ≡ ok (first ∷ others)
    pub complete : first.recovered_percent ≡ "100%"
    pub stored : set_status db es key limit rows success before ≡ (w', none)

  -- The same as a tuple.
  abbrev Restored : List (Task T) → Task T → W → W → Type 0
  Restored rows t w w' =
      (r : Recovery) × (rs : List Recovery) × (get_restore_index_process es (t.index ∷ []) w
        ≡ ok (r ∷ rs))
      × ((r.recovered_percent == "100%") ≡ true)
      × (set_status db es key limit rows success w ≡ (w', none))

  -- What the query that the call begins with found.
  abbrev pub Query : Queued → W → List (Task T) → Type 0
  Query q w rows =
      (i : String) × (is : List String) × (q.index ≡ i ∷ is)
      × (find_tasks (task_query db es key limit q.task_id i) w ≡ ok rows)
