-- ===== src/Controller/Restore.antt =====
-- `restoreIndices`, for an interval that `time.NewTicker` accepts, and what a worker does with an entry of
-- the queue. The panic on another interval is in System.
pub mod Progress
pub mod Failures
pub mod Success
pub mod Renamed
pub mod Placement
pub mod Worker
use es_snapshot_restore.Base.{
  ℤ, ℕ, String, ◌<>◌, Bool, true, false, Option, none, some, List, [], ◌∷◌, ◌==◌, if◌then◌else◌,
  Error, timed_out, Result, ok, err,
}
use es_snapshot_restore.Utils.{TaskStatus, success, failed, timeout, status_text}
use es_snapshot_restore.Db.{Task, Statement, query_all, Changes, status_only, Database}
use es_snapshot_restore.Elastic.{Recovery, Search, restore, get_restore_index_process}
use es_snapshot_restore.Controller.{Queued}

-- How the call ends: it returns an error or nil, it panics, or it has not returned by the end of
-- the schedule.
pub data End : Type 0 where
  finished : Option Error → End
  panicked : End
  waiting : End

-- What wakes the `select` of the loop. Until then others may have changed the world.
pub data Wake (W : Type 0) : Type 0 where
  tick : (W → W) → Wake W
  time_out : (W → W) → Wake W

module _ {T W : Type 0} (db : Database T W) (es : Search W) (restore_key : String) (limit : ℤ) where
  open db use {find_tasks, update_tasks}

  -- Sets the status of the rows, and only that.
  unfoldable pub set_status : List (Task T) → TaskStatus → W → W × Option Error
  set_status rows s = update_tasks rows (status_only (status_text s))

  -- The end of a tick after the status was written: an error there means another round.
  abbrev saved : W × Option Error → W × Option (Option Error)
  saved (w, none) = (w, some none)
  saved (w, some e) = (w, none)

  -- The body of the case `<-ticker.C`: `none` where it continues, else what it returns.
  unfoldable pub check_progress : List (Task T) → Task T → W → W × Option (Option Error)
  unfolding set_status
  check_progress rows t w = elim (get_restore_index_process es (t.index ∷ []) w) [
    | err e ↦ (w, none)
    | ok [] ↦ (w, none)
    | ok (r ∷ rs) ↦
        if r.recovered_percent == "100%" then saved (set_status rows success w) else (w, none)
  ]

  -- One round of the loop.
  unfoldable pub on_wake : List (Task T) → Task T → Wake W → W → W × Option (Option Error)
  unfolding set_status
  on_wake rows t (tick others) w = check_progress rows t (others w)
  on_wake rows t (time_out others) w =
      ((set_status rows timeout (others w)).0, some (some (timed_out t.index limit)))

  -- The loop, over the wakings that occur.
  unfoldable pub poll : List (Task T) → Task T → List (Wake W) → W → W × End
  poll rows t [] w = (w, waiting)
  poll rows t (e ∷ es) w =
      let (w', r) = on_wake rows t e w in
      elim r [ none ↦ poll rows t es w' | some x ↦ (w', finished x) ]

  abbrev pub failure_text : Task T → String
  failure_text t = "failed to restore index " <> (t.index <> (" from snapshot " <> t.snapshot))

  unfoldable pub mark_failed : List (Task T) → Task T → W → W × Option Error
  mark_failed rows t = update_tasks rows (record {
    status = some (status_text failed);
    current_stage = none;
    error_message = some (failure_text t);
    updated_at = none;
  })

  -- After the row is found: ask for the restore, and wait for it.
  unfoldable pub run_restore : List (Task T) → Task T → List (Wake W) → W → W × End
  run_restore rows t wakes w =
      let (w', e) =
        restore es t.repository t.snapshot restore_key restore_key t.repository (t.index ∷ []) w in
      elim e [
        | some x ↦ ((mark_failed rows t w').0, finished (some x))
        | none ↦ poll rows t wakes w'
      ]

  unfoldable pub task_query : String → String → Statement
  task_query id index = query_all "" 0 ("task_id = ? and index = ?" ∷ id ∷ index ∷ [])

  -- `len(t) != 1` returns the error of the query, which is nil there.
  unfoldable pub with_rows : List (Task T) → List (Wake W) → W → W × End
  with_rows (t ∷ []) wakes w = run_restore (t ∷ []) t wakes w
  with_rows [] wakes w = (w, finished none)
  with_rows (t ∷ u ∷ rows) wakes w = (w, finished none)

  -- `task.Index[0]` panics on an entry with no index.
  unfoldable pub restore_indices : Queued → List (Wake W) → W → W × End
  restore_indices q wakes w = elim (q.index) [
    | [] ↦ (w, panicked)
    | index ∷ more ↦ elim (find_tasks (task_query q.task_id index) w) [
      | err e ↦ (w, finished (some e))
      | ok rows ↦ with_rows rows wakes w
    ]
  ]
