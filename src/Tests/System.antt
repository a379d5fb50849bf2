-- ===== src/Tests/System.antt =====
-- A run of the whole reconciler, from a ready task to the end of its restore.
use es_snapshot_restore.Base.{
  not_found, pos, ℕ, ◌≡◌, inr, refl, arith, none, some, [], ◌∷◌, timed_out, Bool, count,
}
use es_snapshot_restore.Elastic.{restore, restore_answer}
use es_snapshot_restore.Controller.{State, returned, Queued}
use es_snapshot_restore.Controller.Reconcile.{queue_entry}
use es_snapshot_restore.Controller.Reconcile.Again.{reconcile-go}
use es_snapshot_restore.Controller.Restore.{
  time_out, set_status, on_wake, task_query, restore_indices,
}
use es_snapshot_restore.Controller.System.{
  begun, over, System, new_system, call_sends, receive, acquire, begin_waits, wake, SystemReach,
  OwnReach, here, next,
}
use es_snapshot_restore.Controller.System.Begin.{begin_run, begin_rows, begin_restore}
use es_snapshot_restore.Controller.System.Safe.{IsSafe, SystemReach-IsSafe}
use es_snapshot_restore.Controller.System.Indexed.{IsIndexed}
use es_snapshot_restore.Controller.System.Drain.{SystemReach-drains}
use es_snapshot_restore.Controller.Restore.Worker.{NoEmptyName, process}
use es_snapshot_restore.Controller.Reconcile.Stages.{UpdateKeepsSpec}
use es_snapshot_restore.Flow.Ended.{process-reconcile}
use es_snapshot_restore.Controller.Clock.{is_positive, poll_interval, duration}
use es_snapshot_restore.Tests.Ready.{request, ready_task, ready_world, is_ready, ready_state}
use es_snapshot_restore.Tests.Demo.{
  demo_cluster, World, demo_database, demo_search, demo_env, demo_row,
}

-- No write of others.
abbrev Nothing : World → World → Type 0
Nothing w w' = w' ≡ w

abbrev Run : System ℕ World → System ℕ World → Type 0
Run = SystemReach demo_env demo_database demo_search Nothing

abbrev at_start : System ℕ World
at_start = record {
  loops = 1;
  hooked = 0;
  state = ready_state;
  sending = [];
  held = [];
  running = [];
  done = [];
  sent = [];
}

abbrev sent_state : State World
sent_state = record ready_state { task_queue = queue_entry demo_env ready_task ∷ [] }

-- The call, the receive, and the start of the goroutine.
abbrev at_work : System ℕ World
at_work = record at_start {
  running = (queue_entry demo_env ready_task, begun) ∷ [];
  sent = queue_entry demo_env ready_task ∷ [];
}

at_work-Run : Run (new_system (some []) ready_world) at_work
unfolding new_system
at_work-Run =
    next
      (next
        (next here (
          call_sends request (returned 0 none) sent_state (queue_entry demo_env ready_task)
            (reconcile-go demo_env request ready_task ready_state is_ready (omega arith)) refl
            refl))
        (receive (queue_entry demo_env ready_task) [] (omega arith) refl refl))
      (acquire [] (queue_entry demo_env ready_task) [] (omega arith) refl refl)

-- The restore begins, and times out.
abbrev late_world : World
late_world = record ready_world { rows = record demo_row { status = "TIMEOUT" } ∷ [] }

abbrev timed : System ℕ World
timed = record at_work {
  running = (queue_entry demo_env ready_task, over (some (timed_out "logs" (pos 60)))) ∷ [];
  state = record ready_state { world = late_world };
}

timed-Run : Run (new_system (some []) ready_world) timed
unfolding is_positive poll_interval duration queue_entry begin_restore begin_rows begin_run
    task_query restore restore_answer on_wake set_status
timed-Run =
    next
      (next at_work-Run (
        begin_waits [] (queue_entry demo_env ready_task) [] ready_world (demo_row ∷ []) demo_row
          refl refl refl refl))
      (wake [] (queue_entry demo_env ready_task) [] (demo_row ∷ []) demo_row (time_out (λ v. v))
        late_world (some (some (timed_out "logs" (pos 60)))) refl (inr refl) refl refl)

at_work-IsIndexed : IsIndexed at_work
unfolding queue_entry
at_work-IsIndexed = record { sending = tt; queue = tt; held = tt; running = (λ e. cc e, tt) }

SystemReach-IsSafe_example : IsSafe demo_env demo_database demo_search Nothing timed
SystemReach-IsSafe_example =
    SystemReach-IsSafe demo_env demo_database demo_search Nothing (some []) ready_world timed
      timed-Run

SystemReach-drains_example :
    (p : System ℕ World) × OwnReach demo_env demo_database demo_search Nothing at_work p
    × (p.sending ≡ [])
    × (p.sent ≡ at_work.sent)
    × ((f : Queued → Bool) → count f p.done ≡ count f p.sent)
unfolding is_positive poll_interval duration
SystemReach-drains_example =
    SystemReach-drains demo_env demo_database demo_search Nothing (some []) ready_world at_work
      (omega arith) (omega arith) refl at_work-Run at_work-IsIndexed

no_empty_name : NoEmptyName demo_cluster demo_database demo_search "restore" (pos 60)
no_empty_name ns w = (not_found, refl)

keeps_spec : UpdateKeepsSpec demo_env ready_state
keeps_spec t t' w w' updated = (ground arith, ground arith)

process-reconcile_example :
    process demo_cluster demo_database demo_search "restore"
      (pos 60)
      (queue_entry demo_env ready_task)
      (time_out (λ v. v) ∷ [])
      ready_world
    ≡ restore_indices demo_database demo_search "restore"
        (pos 60)
        (queue_entry demo_env ready_task)
        (time_out (λ v. v) ∷ [])
        ready_world
process-reconcile_example =
    process-reconcile demo_env demo_database demo_search no_empty_name ready_state keeps_spec
      request (returned 0 none) sent_state (queue_entry demo_env ready_task)
      (reconcile-go demo_env request ready_task ready_state is_ready (omega arith)) refl
      (time_out (λ v. v) ∷ []) ready_world
