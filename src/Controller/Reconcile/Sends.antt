-- ===== src/Controller/Reconcile/Sends.antt =====
-- What a call of `Reconcile` does to the queue, with no assumption on the cluster.
use es_snapshot_restore.Base.{◌≡◌, none, ◌⊎◌, arith}
use es_snapshot_restore.Api.{NamespacedName, RestoreTask}
use es_snapshot_restore.Controller.{State, Outcome, returned}
use es_snapshot_restore.Controller.Reconcile.{
  fetch_task, mark_started, handle, reconcile, Env, ◌>>=◌,
}
use es_snapshot_restore.Controller.Reconcile.Stages.{
  Holds, after-Holds, Holds-mono, Same, Queues, handle-Queues,
}
use es_snapshot_restore.Controller.Reconcile.Queueing.{Holds-cases}

module _ {Q NA T W : Type 0} (env : Env Q NA T W) (s₀ : State W) where
  fetch_task-Same :
      (req : NamespacedName) → Holds (Same env s₀) (Same env s₀) (fetch_task env req s₀)
  unfolding fetch_task
  fetch_task-Same req = ground arith

  mark_started-Same :
      (t : RestoreTask T) (s : State W)
      → Same env s₀ tt s
      → Holds (Same env s₀) (Same env s₀) (mark_started env t s)
  unfolding mark_started
  mark_started-Same t s h = ground arith

  -- The queue is as it was, or there was room and the entry of a task is now its last.
  pub reconcile-Queues :
      (req : NamespacedName)
      → let (o, s) = reconcile env req s₀ in
        (s.task_queue ≡ s₀.task_queue)
        ⊎ ((o ≡ returned 0 none) × ((t : RestoreTask T) × Queues env s₀ t s))
  unfolding reconcile
  reconcile-Queues req =
      Holds-cases (λ s. (t : RestoreTask T) × Queues env s₀ t s) (λ s. s.task_queue ≡ s₀.task_queue)
        ((do t ← fetch_task env req; t' ← mark_started env t; handle env t') s₀)
        (after-Holds (Same env s₀) P E (fetch_task env req s₀) _ (fetch_task-Same req) λ t s₁ h₁.
          after-Holds (Same env s₀) P E (mark_started env t s₁) _ (mark_started-Same t s₁ h₁)
            λ t' s₂ h₂.
              Holds-mono (λ _ s. Queues env s₀ t' s) P E (handle env t' s₂)
                (handle-Queues env s₀ t' s₂ h₂) λ _ s h. (t', h))
    where
      P : Unit {0} → State W → Type 0
      P _ s = (t : RestoreTask T) × Queues env s₀ t s

      E : Outcome → State W → Type 0
      E _ s = s.task_queue ≡ s₀.task_queue
