-- ===== src/Controller/Restore/Success.antt =====
-- That a restore whose index recovers in time comes to a good end.
use es_snapshot_restore.Base.{ℤ, String, ◌≡◌, none, List, [], ◌∷◌, ok}
use es_snapshot_restore.Utils.{success}
use es_snapshot_restore.Db.{Task, Database}
use es_snapshot_restore.Elastic.{Recovery, Search, get_restore_index_process}
use es_snapshot_restore.Controller.Restore.{set_status}

module _ {T W : Type 0} (db : Database T W) (es : Search W) (key : String) (limit : ℤ)
    (t : Task T) where
  -- The index is reported as recovered, and its row can be set to SUCCESS.
  abbrev pub IsReady : W → Type 0
  IsReady w =
      (r : Recovery) × (rs : List Recovery) × (get_restore_index_process es (t.index ∷ []) w
        ≡ ok (r ∷ rs))
      × (r.recovered_percent ≡ "100%")
      × ((set_status db es key limit (t ∷ []) success w).1 ≡ none)
