-- ===== src/Controller/Status.antt =====
-- `updateTaskStatus`: reads the task that an entry names, and writes its end and its status back.
use es_snapshot_restore.Base.{String, some, ok, err}
use es_snapshot_restore.Api.{RestoreTask, Cluster}
use es_snapshot_restore.Controller.{Queued}

module _ {Q NA T W : Type 0} (k : Cluster Q NA T W) where
  open k use {now, get_task, update_task}

  -- The task with its end and status set.
  unfoldable pub with_status : String → T → RestoreTask T → RestoreTask T
  with_status status at t = record t {
    status = record (t.status) { finished_at = some at; status = status };
  }

  -- A failure of the read or of the write is only logged.
  unfoldable pub update_task_status : Queued → String → W → W
  update_task_status q status w =
      elim (get_task (record { namespace = q.namespace; name = q.name }) w) [
        | err e ↦ w
        | ok t ↦ (update_task (with_status status (now w) t) w).0
      ]
