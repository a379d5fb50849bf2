-- ===== src/Controller/Restore/Worker.antt =====
-- The goroutine that `StartWorker` starts for an entry: the restore, then the status of the task.
use es_snapshot_restore.Base.{ℤ, String, ◌≡◌, refl, none, some, List, Error, err}
use es_snapshot_restore.Api.{Cluster}
use es_snapshot_restore.Db.{Database}
use es_snapshot_restore.Elastic.{Search}
use es_snapshot_restore.Controller.{Queued, restore_status_done, restore_status_failed}
use es_snapshot_restore.Controller.Status.{update_task_status}
use es_snapshot_restore.Controller.Restore.{End, finished, panicked, waiting, Wake, restore_indices}

module _ {Q NA T W : Type 0} (k : Cluster Q NA T W) (db : Database T W) (es : Search W)
    (key : String) (limit : ℤ) where
  open k use {get_task}

  -- The two calls of `updateTaskStatus`.
  unfoldable pub report : Queued → W × End → W × End
  report q (w, finished none) = (update_task_status k q restore_status_done w, finished none)
  report q (w, finished (some e)) =
      (update_task_status k q restore_status_failed w, finished (some e))
  report q (w, panicked) = (w, panicked)
  report q (w, waiting) = (w, waiting)

  pub process : Queued → List (Wake W) → W → W × End
  process q wakes w = report q (restore_indices db es key limit q wakes w)

  -- The API server has no object with an empty name.
  abbrev pub NoEmptyName : Type 0
  NoEmptyName =
      (ns : String) (w : W)
      → (e : Error) × (get_task (record { namespace = ns; name = "" }) w ≡ err e)

  update_task_status_unnamed :
      NoEmptyName
      → (q : Queued) (status : String) (w : W) → q.name ≡ ""
      → update_task_status k q status w ≡ w
  unfolding update_task_status
  update_task_status_unnamed refused q status w h =
      rw (h, (refused q.namespace w).1, update_task_status)

  report_unnamed : NoEmptyName → (q : Queued) (r : W × End) → q.name ≡ "" → report q r ≡ r
  unfolding report
  report_unnamed refused q (w, finished none) h =
      rw (update_task_status_unnamed refused q restore_status_done w h)
  report_unnamed refused q (w, finished (some e)) h =
      rw (update_task_status_unnamed refused q restore_status_failed w h)
  report_unnamed refused q (w, panicked) h = refl
  report_unnamed refused q (w, waiting) h = refl

  -- An entry without a name is handled just as `restoreIndices` does it.
  pub process_unnamed :
      NoEmptyName
      → (q : Queued) (wakes : List (Wake W)) (w : W) → q.name ≡ ""
      → process q wakes w ≡ restore_indices db es key limit q wakes w
  unfolding process
  process_unnamed refused q wakes w h =
      report_unnamed refused q (restore_indices db es key limit q wakes w) h
