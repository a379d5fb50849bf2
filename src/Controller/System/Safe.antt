-- ===== src/Controller/System/Safe.antt =====
-- What holds of the entries of the whole reconciler, whatever its calls, its restores and others do.
use es_snapshot_restore.Base.{
  capacity, ◌+◌, ◌≤◌, ◌≡◌, Bool, Option, List, ◌++◌, count, length, arith,
}
use es_snapshot_restore.K8s.{Labels}
use es_snapshot_restore.Db.{Database}
use es_snapshot_restore.Elastic.{Search}
use es_snapshot_restore.Controller.{Queued}
use es_snapshot_restore.Controller.Reconcile.{Env}
use es_snapshot_restore.Controller.Pool.Wired.{wired_pool-safe}
use es_snapshot_restore.Controller.Pool.Order.{Reach-IsOrdered}
use es_snapshot_restore.Controller.System.{System, new_system, SystemReach}
use es_snapshot_restore.Controller.System.Pooled.{entries, length-entries, SystemReach-Reach}

module _ {Q NA T W : Type 0} (env : Env Q NA T W) (db : Database T W) (es : Search W)
    (Others : W → W → Type 0) where
  open env use {config as c}

  pub record IsSafe (p : System T W) : Type 0 where
    pub queue_fits : length p.state.task_queue ≤ capacity c.max_tasks
    pub restores_fit : length p.running ≤ capacity c.concurrency
    pub taken : List Queued
    pub in_order : p.sent ≡ taken ++ p.state.task_queue
    pub at_work :
        (f : Queued → Bool)
        → count f taken ≡ count f p.held + count f (entries p.running) + count f p.done

  -- In every state that the reconciler comes to, the queue holds at most as many entries as a channel
  -- made for `max_tasks` has room for, and at most as many restores run as one made for `concurrency` has
  -- room for; what the loops have received is what was sent, in that order,
  -- without what still is in the queue; and each entry that was received is, as often as it was, in
  -- exactly one of the hands of a loop, the running and the done ones.
  pub SystemReach-IsSafe :
      (labels : Option Labels) (w : W) (p : System T W)
      → SystemReach env db es Others (new_system labels w) p
      → IsSafe p
  SystemReach-IsSafe labels w p r =
      let pool = SystemReach-Reach env db es Others labels w r in
      let (bounds, conserved) =
        wired_pool-safe (capacity c.max_tasks) (capacity c.concurrency) pool in
      let ordered = Reach-IsOrdered (capacity c.max_tasks) (capacity c.concurrency) pool in
      record {
        queue_fits = bounds.queue_fits;
        restores_fit = omega (arith, bounds.sem_fits, length-entries p.running);
        taken = ordered.taken;
        in_order = ordered.in_order;
        at_work = ordered.at_work;
      }
