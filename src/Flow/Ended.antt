-- ===== src/Flow/Ended.antt =====
-- What becomes of the end of a restore: `Reconcile` sends an entry, and a worker reports its end.
use es_snapshot_restore.Base.{
  ◌≡◌, ap, sym, ◌∙◌, List, [], ◌∷◌, ◌++◌, length, length-append, arith, inl, inr,
}
use mathlib.Core.List.{append_cancel_left}
use es_snapshot_restore.Api.{NamespacedName}
use es_snapshot_restore.Db.{Database}
use es_snapshot_restore.Elastic.{Search}
use es_snapshot_restore.Controller.{Queued, State, Outcome}
use es_snapshot_restore.Controller.Reconcile.{Env, reconcile, queue_entry}
use es_snapshot_restore.Controller.Reconcile.Stages.{UpdateKeepsSpec}
use es_snapshot_restore.Controller.Reconcile.Queueing.{reconcile-queue}
use es_snapshot_restore.Controller.Restore.{Wake, restore_indices}
use es_snapshot_restore.Controller.Restore.Worker.{NoEmptyName, process, process_unnamed}

one_of : {A : Type 0} {a b : A} → a ∷ [] ≡ b ∷ [] → a ≡ b
one_of e = cc e

module _ {Q NA T W : Type 0} (env : Env Q NA T W) (db : Database T W) (es : Search W) where
  open env use {cluster as k, config as c}

  sent_unnamed :
      (s : State W)
      → UpdateKeepsSpec env s
      → (req : NamespacedName) (o : Outcome) (s' : State W) (q : Queued)
      → reconcile env req s ≡ (o, s')
      → s'.task_queue ≡ s.task_queue ++ (q ∷ [])
      → q.name ≡ ""
  unfolding queue_entry
  sent_unnamed s keeps req o s' q called longer = elim (reconcile-queue env s keeps req) [
    | inl same ↦
        let queue = ap (λ r. r.1.task_queue) called in
        absurd (
          omega
            (arith, ap length (sym longer ∙ sym queue ∙ same), length-append s.task_queue (q ∷ [])))
    | inr (t, found, done, queues) ↦
        let queue = ap (λ r. r.1.task_queue) called in
        ap (λ x. x.name)
          (one_of (append_cancel_left s.task_queue _ _ (sym longer ∙ sym queue ∙ queues.sent)))
  ]

  -- If the API server has no object with an empty name, and updates keep the specification of a task, then
  -- whatever a call of `Reconcile` sends, the worker does with it, at any time and by any wakings, just
  -- what `restoreIndices` does: the end of the restore is written to no task.
  pub process-reconcile :
      NoEmptyName k db es c.restore_key c.timeout
      → (s : State W) → UpdateKeepsSpec env s
      → (req : NamespacedName) (o : Outcome) (s' : State W) (q : Queued)
      → reconcile env req s ≡ (o, s')
      → s'.task_queue ≡ s.task_queue ++ (q ∷ [])
      → (wakes : List (Wake W)) (w : W)
      → process k db es c.restore_key c.timeout q wakes w
        ≡ restore_indices db es c.restore_key c.timeout q wakes w
  process-reconcile refused s keeps req o s' q called longer wakes w =
      process_unnamed k db es c.restore_key c.timeout refused q wakes w
        (sent_unnamed s keeps req o s' q called longer)
