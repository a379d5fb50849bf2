-- ===== src/Controller/System/Drain.antt =====
-- That the reconciler never gets stuck: from wherever it stands, its own steps bring what was sent,
-- and what calls of `Reconcile` wait to send, to its end.
use mathlib.Core.List.{append-nil}
use es_snapshot_restore.Base.{
  true, capacity, ℕ, zero, suc, ap, ◌<◌, ◌≡◌, refl, sym, ◌∙◌, Bool, Option, [], ◌++◌, count, arith,
  inl, inr,
}
use es_snapshot_restore.Db.{Database}
use es_snapshot_restore.Elastic.{Search}
use es_snapshot_restore.K8s.{Labels}
use es_snapshot_restore.Controller.{Queued}
use es_snapshot_restore.Controller.Clock.{is_positive, poll_interval}
use es_snapshot_restore.Controller.Reconcile.{Env}
use es_snapshot_restore.Controller.System.Indexed.{IsIndexed, system_work, IsIdle}
use es_snapshot_restore.Controller.System.{
  System, new_system, SystemReach, here, next, OwnReach, own_here, own_next,
}
use es_snapshot_restore.Controller.System.Advance.{committed, next_step}
use es_snapshot_restore.Controller.Pool.Wired.{wired_pool-safe, wired_pool_drains}
use es_snapshot_restore.Controller.System.Pooled.{entries, forget, SystemReach-Reach}

module _ {Q NA T W : Type 0} (env : Env Q NA T W) (db : Database T W) (es : Search W)
    (Others : W → W → Type 0) where
  open env use {cluster as k, config as c}

  SystemReach-append :
      {p q r : System T W}
      → SystemReach env db es Others p q
      → SystemReach env db es Others q r
      → SystemReach env db es Others p r
  SystemReach-append r here = r
  SystemReach-append r (next s m) = next (SystemReach-append r s) m

  OwnReach-append :
      {p q r : System T W}
      → OwnReach env db es Others p q
      → OwnReach env db es Others q r
      → OwnReach env db es Others p r
  OwnReach-append r own_here = r
  OwnReach-append r (own_next s m own) = own_next (OwnReach-append r s) m own

  -- A run of the reconciler's own steps is a run.
  OwnReach-SystemReach :
      {p q : System T W} → OwnReach env db es Others p q → SystemReach env db es Others p q
  OwnReach-SystemReach own_here = here
  OwnReach-SystemReach (own_next s m own) = next (OwnReach-SystemReach s) m

  OwnReach-IsIdle :
      (fuel : ℕ) (p : System T W)
      → 0 < capacity c.max_tasks
      → 0 < capacity c.concurrency
      → is_positive (poll_interval c.interval) ≡ true
      → 0 < p.loops
      → system_work p < fuel
      → IsIndexed p
      → (p' : System T W) × OwnReach env db es Others p p'
        × IsIdle p'
        × (committed p' ≡ committed p)
  OwnReach-IsIdle zero p m n ticks l w i = absurd (omega arith)
  OwnReach-IsIdle (suc fuel) p m n ticks l w i =
      elim (next_step env db es Others p p.running p.held p.state.task_queue p.sending m n ticks l
        refl refl refl refl i) [
          | inl idle ↦ (p, own_here, idle, refl)
          | inr (p', step, own, less, i', loops, same) ↦
              let (e, r, idle, kept) =
                OwnReach-IsIdle fuel p' m n ticks (rw loops l) (omega arith) i' in
              (e, OwnReach-append (own_next own_here step own) r, idle, kept ∙ same)
        ]

  -- If the queue has room for at least one entry, at least one restore may run, and the interval of the
  -- ticker is positive as an `int64` of nanoseconds, then from every state that the reconciler comes to,
  -- and in which no entry in flight is without an index, there is a run of steps of its goroutines and of
  -- calls of `Reconcile` that wait, with no new loop, no new call and nothing that others do, to a state where no call waits to send and all that
  -- was sent, what the calls waited to send included, is done, each entry as often as it was sent.
  pub SystemReach-drains :
      (labels : Option Labels) (w : W) (p : System T W)
      → 0 < capacity c.max_tasks
      → 0 < capacity c.concurrency
      → is_positive (poll_interval c.interval) ≡ true
      → SystemReach env db es Others (new_system labels w) p
      → IsIndexed p
      → (p' : System T W) × OwnReach env db es Others p p'
        × (p'.sending ≡ [])
        × (p'.sent ≡ p.sent ++ p.sending)
        × ((f : Queued → Bool) → count f p'.done ≡ count f p'.sent)
  SystemReach-drains labels w p m n ticks r i =
      let pool = SystemReach-Reach env db es Others labels w r in
      let loops =
        (wired_pool_drains (capacity c.max_tasks) (capacity c.concurrency) (forget p) n pool).0 in
      let (p', r', idle, same) =
        OwnReach-IsIdle (suc (system_work p)) p m n ticks loops (omega arith) i in
      (
        p',
        r',
        idle.no_sending,
        sym (append-nil p'.sent) ∙ ap (λ x. p'.sent ++ x) (sym idle.no_sending) ∙ same,
        λ f. omega (
          arith,
          (wired_pool-safe (capacity c.max_tasks) (capacity c.concurrency) (
                SystemReach-Reach env db es Others labels w
                  (SystemReach-append r (OwnReach-SystemReach r')))).1
              f,
          ap (count f) idle.no_queue,
          ap (count f) idle.no_held,
          ap (λ x. count f (entries x)) idle.no_running,
        ),
      )
