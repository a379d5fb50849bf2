-- ===== src/Controller/Restore/Failures.antt =====
-- The errors that `restoreIndices` returns, and what it has written by then.
use es_snapshot_restore.Base.{ℤ, String, ◌≡◌, Option, some, List, [], ◌∷◌, Error, timed_out}
use es_snapshot_restore.Utils.{timeout}
use es_snapshot_restore.Db.{Task, Database}
use es_snapshot_restore.Elastic.{Search, restore}
use es_snapshot_restore.Controller.Restore.{set_status, mark_failed}

module _ {T W : Type 0} (db : Database T W) (es : Search W) (key : String) (limit : ℤ) where
  open db use {find_tasks}

  -- The loop has ended with the timer, and TIMEOUT was written last.
  abbrev pub TimedOut : List (Task T) → Task T → Error → W → Type 0
  TimedOut rows t e w' =
      (e ≡ timed_out t.index limit)
      × ((before : W) × (w' ≡ (set_status db es key limit rows timeout before).0))

  -- What Elasticsearch answers to the request for the index.
  abbrev pub requested : Task T → W → W × Option Error
  requested t w = restore es t.repository t.snapshot key key t.repository (t.index ∷ []) w

  -- The request was refused, and FAILED was written last.
  abbrev pub Refused : List (Task T) → Task T → Error → W → W → Type 0
  Refused rows t e w w' =
      ((requested t w).1 ≡ some e) × (w' ≡ (mark_failed db es key limit rows t (requested t w).0).0)
