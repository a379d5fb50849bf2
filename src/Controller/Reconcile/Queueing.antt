-- ===== src/Controller/Reconcile/Queueing.antt =====
-- When `Reconcile` puts an entry into the queue of the workers, and which.
use es_snapshot_restore.Base.{
  ◌≡◌, refl, ap, some, none, ◌⊎◌, inl, inr, arith, Result, ok, err, Option-cases,
}
use es_snapshot_restore.Api.{NamespacedName, RestoreTask}
use es_snapshot_restore.Controller.{State, Outcome, returned}
use es_snapshot_restore.Controller.Reconcile.{
  Step, go, stop, fetch_task, updated, mark_started, handle, sts_key, queue_entry, reconcile,
  outcome, Env, ◌>>=◌,
}
use es_snapshot_restore.Controller.Reconcile.Stages.{
  Holds, after-Holds, Holds-mono, Same, Queues, UpdateKeepsSpec, handle-Queues,
}

pub Holds-cases :
    {W : Type 0} (P E : State W → Type 0) (r : Step (Unit {0}) × State W)
    → Holds (λ _ s. P s) (λ _ s. E s) r
    → E r.1 ⊎ ((outcome r.0 ≡ returned 0 none) × P r.1)
Holds-cases P E (go _, s) h = inr (refl, h)
Holds-cases P E (stop o, s) h = inl h

module _ {Q NA T W : Type 0} (env : Env Q NA T W) (s₀ : State W) where
  open env use {cluster.{now, update_task, get_task}, config as c}

  queue_entry-spec :
      (t t' : RestoreTask T) → t'.spec ≡ t.spec → queue_entry env t' ≡ queue_entry env t
  unfolding queue_entry
  queue_entry-spec t t' e = ground arith

  sts_key-spec :
      (t t' : RestoreTask T)
      → t'.spec ≡ t.spec
      → t'.namespace ≡ t.namespace
      → sts_key env t' ≡ sts_key env t
  unfolding sts_key
  sts_key-spec t t' e n = rw (e, n)

  Queues-spec :
      (t t' : RestoreTask T) (s : State W)
      → (t'.spec ≡ t.spec) × (t'.namespace ≡ t.namespace)
      → Queues env s₀ t' s
      → Queues env s₀ t s
  Queues-spec t t' s (e, n) h = record {
    sent = rw (queue_entry-spec t t' e) at (h.sent);
    room = h.room;
    sts = h.sts;
    found = rw (sts_key-spec t t' e n) at (h.found);
    unowned = h.unowned;
    ready = h.ready;
  }

  abbrev Fetched : NamespacedName → RestoreTask T → State W → Type 0
  Fetched req t s = (s ≡ s₀) × (get_task req s₀.world ≡ ok t)

  abbrev Kept : RestoreTask T → RestoreTask T → State W → Type 0
  Kept t t' s = Same env s₀ tt s × ((t'.spec ≡ t.spec) × (t'.namespace ≡ t.namespace))

  fetch_task-Fetched :
      (req : NamespacedName) → Holds (Fetched req) (Same env s₀) (fetch_task env req s₀)
  unfolding fetch_task
  fetch_task-Fetched req = ground arith

  updated-Kept :
      (t : RestoreTask T) (s : State W) (r : W × Result (RestoreTask T))
      → s ≡ s₀
      → ((t' : RestoreTask T) (w : W)
          → r ≡ (w, ok t')
          → (t'.spec ≡ t.spec) × (t'.namespace ≡ t.namespace))
      → Holds (Kept t) (Same env s₀) (updated s r)
  updated-Kept t s (w, ok t') e keeps = (ap (λ u. u.task_queue) e, keeps t' w refl)
  updated-Kept t s (w, err x) e keeps = ap (λ u. u.task_queue) e

  abbrev started : RestoreTask T → State W → RestoreTask T
  started t s = record t { status = record (t.status) { start_at = some (now s.world) } }

  mark_started-Kept :
      UpdateKeepsSpec env s₀
      → (t : RestoreTask T) (s : State W) → s ≡ s₀
      → Holds (Kept t) (Same env s₀) (mark_started env t s)
  unfolding mark_started
  mark_started-Kept keeps t s e = elim (Option-cases (t.status.start_at)) [
    | inl unset ↦
        rw (unset, mark_started)
          (updated-Kept t s (update_task (started t s) s.world) e
            (λ t' w h. keeps (started t s) t' s.world w h))
    | inr (at, old) ↦ rw (old, mark_started) (ap (λ u. u.task_queue) e, (refl, refl))
  ]

  abbrev SentFor : NamespacedName → State W → Type 0
  SentFor req s = (t : RestoreTask T) × (get_task req s₀.world ≡ ok t) × Queues env s₀ t s

  abbrev SameQueue : State W → Type 0
  SameQueue s = s.task_queue ≡ s₀.task_queue

  stages-SentFor :
      UpdateKeepsSpec env s₀
      → (req : NamespacedName)
      → Holds
          (λ _ s. SentFor req s)
          (λ _ s. SameQueue s)
          ((do t ← fetch_task env req; t' ← mark_started env t; handle env t') s₀)
  stages-SentFor keeps req =
      after-Holds (Fetched req) P E (fetch_task env req s₀) _ (fetch_task-Fetched req) λ t s₁ h₁.
        after-Holds (Kept t) P E (mark_started env t s₁) _ (mark_started-Kept keeps t s₁ h₁.0)
          λ t' s₂ h₂.
            Holds-mono (λ _ s. Queues env s₀ t' s) P E (handle env t' s₂)
              (handle-Queues env s₀ t' s₂ h₂.0) λ _ s h. (t, h₁.1, Queues-spec t t' s h₂.1 h)
    where
      P : Unit {0} → State W → Type 0
      P _ s = SentFor req s

      E : Outcome → State W → Type 0
      E _ s = SameQueue s

  -- If updates keep the specification of a task, a call leaves the queue as it was, or it returns
  -- with neither an error nor a requeue and has sent the entry of the task that it was called for:
  -- there was room for it, and the stateful set of the task's node set, as the cluster has it, has no
  -- owner of kind Elasticsearch and API version `elasticsearch.k8s.elastic.co/v1`, and all its replicas
  -- ready.
  pub reconcile-queue :
      UpdateKeepsSpec env s₀
      → (req : NamespacedName)
      → let (o, s) = reconcile env req s₀ in
        (s.task_queue ≡ s₀.task_queue)
        ⊎ ((t : RestoreTask T) × (get_task req s₀.world ≡ ok t)
            × (o ≡ returned 0 none)
            × Queues env s₀ t s)
  unfolding reconcile
  reconcile-queue keeps req =
      elim (Holds-cases (SentFor req) SameQueue _ (stages-SentFor keeps req)) [
        | inl same ↦ inl same
        | inr (done, sent) ↦ inr (sent.0, sent.1, done, sent.2)
      ]
