-- ===== src/Controller/Reconcile/Stages.antt =====
-- What each stage of `Reconcile` leaves behind, and a rule that puts the stages together.
use es_snapshot_restore.Base.{
  capacity, ◌<◌, ◌≡◌, ap, ◌∙◌, String, false, some, [], ◌∷◌, ◌++◌, arith, length, ok,
}
use es_snapshot_restore.Api.{RestoreTask, Elasticsearch, StatefulSet}
use es_snapshot_restore.Controller.{State, Outcome}
use es_snapshot_restore.Controller.Reconcile.{
  Step, go, stop, Stage, after, has_es_owner, fetch_es, add_node, grow, check_size, ensure_node,
  sts_key, fetch_sts, check_sts, queue_entry, enqueue, handle, Env,
}

module _ {W : Type 0} where
  -- A stage's result: `P` of the value and the state if it goes on, `E` of both if it stops.
  abbrev pub Holds :
      {A : Type 0}
      → (A → State W → Type 0)
      → (Outcome → State W → Type 0)
      → Step A × State W
      → Type 0
  Holds P E (go a, s) = P a s
  Holds P E (stop o, s) = E o s

  pub after-Holds :
      {A B : Type 0} (R : A → State W → Type 0) (P : B → State W → Type 0)
      (E : Outcome → State W → Type 0) (r : Step A × State W) (k : A → Stage W B)
      → Holds R E r
      → ((a : A) (s : State W) → R a s → Holds P E (k a s))
      → Holds P E (after r k)
  after-Holds R P E (go a, s) k h next = next a s h
  after-Holds R P E (stop o, s) k h next = h

  pub Holds-mono :
      {A : Type 0} (R P : A → State W → Type 0) (E : Outcome → State W → Type 0)
      (r : Step A × State W)
      → Holds R E r
      → ((a : A) (s : State W) → R a s → P a s)
      → Holds P E r
  Holds-mono R P E (go a, s) h next = next a s h
  Holds-mono R P E (stop o, s) h next = h

module _ {Q NA T W : Type 0} (env : Env Q NA T W) (s₀ : State W) where
  open env use {cluster.{get_task, update_task, get_sts}, config as c}

  -- The queue is as it was at the start.
  abbrev pub Same : {A : Type 0} → A → State W → Type 0
  Same _ s = s.task_queue ≡ s₀.task_queue

  -- What holds in `s` when the entry of the task `t` has been sent: it is the last of the queue,
  -- and the stateful set of the task's node set, as the cluster has it, was let through.
  pub record Queues (t : RestoreTask T) (s : State W) : Type 0 where
    pub sent : s.task_queue ≡ s₀.task_queue ++ (queue_entry env t ∷ [])
    pub room : length s₀.task_queue < capacity c.max_tasks
    pub sts : StatefulSet
    pub found : get_sts (sts_key env t) s.world ≡ ok sts
    pub unowned : has_es_owner sts.owner_references ≡ false
    pub ready : sts.replicas ≡ some sts.ready_replicas

  abbrev Found : RestoreTask T → StatefulSet → State W → Type 0
  Found t sts s = Same tt s × (get_sts (sts_key env t) s.world ≡ ok sts)

  abbrev Passed : StatefulSet → State W → Unit {0} → State W → Type 0
  Passed sts s _ s' =
      (s' ≡ s)
      × (has_es_owner sts.owner_references ≡ false)
      × (sts.replicas ≡ some sts.ready_replicas)

  abbrev Sent : RestoreTask T → State W → Unit {0} → State W → Type 0
  Sent t s _ s' =
      (s'.task_queue ≡ s₀.task_queue ++ (queue_entry env t ∷ []))
      × (s'.world ≡ s.world)
      × (length s₀.task_queue < capacity c.max_tasks)

  -- `Update` answers with a task of the same namespace and specification.
  abbrev pub UpdateKeepsSpec : Type 0
  UpdateKeepsSpec =
      (t t' : RestoreTask T) (w w' : W)
      → update_task t w ≡ (w', ok t')
      → (t'.spec ≡ t.spec) × (t'.namespace ≡ t.namespace)

  fetch_es-Same : (t : RestoreTask T) (s : State W) → Same tt s → Holds Same Same (fetch_es env t s)
  unfolding fetch_es
  fetch_es-Same t s h = ground arith

  ensure_node-Same :
      (t : RestoreTask T) (es : Elasticsearch Q NA) (s : State W)
      → Same tt s
      → Holds Same Same (ensure_node env t es s)
  unfolding ensure_node add_node check_size grow
  ensure_node-Same t es s h = ground arith

  fetch_sts-Found :
      (t : RestoreTask T) (s : State W) → Same tt s → Holds (Found t) Same (fetch_sts env t s)
  unfolding fetch_sts
  fetch_sts-Found t s h = ground arith

  check_sts-Passed :
      (es : Elasticsearch Q NA) (name : String) (sts : StatefulSet) (s : State W)
      → Same tt s
      → Holds (Passed sts s) Same (check_sts env es name sts s)
  unfolding check_sts
  check_sts-Passed es name sts s h = ground arith

  enqueue-Sent :
      (t : RestoreTask T) (s : State W) → Same tt s → Holds (Sent t s) Same (enqueue env t s)
  unfolding enqueue
  enqueue-Sent t s h = ground arith

  pub handle-Queues :
      (t : RestoreTask T) (s : State W)
      → Same tt s
      → Holds (λ _ s'. Queues t s') Same (handle env t s)
  unfolding handle
  handle-Queues t s h =
      after-Holds Same P Same (fetch_es env t s) _ (fetch_es-Same t s h) λ es s₁ h₁.
        after-Holds Same P Same (ensure_node env t es s₁) _ (ensure_node-Same t es s₁ h₁) λ _ s₂ h₂.
          after-Holds (Found t) P Same (fetch_sts env t s₂) _ (fetch_sts-Found t s₂ h₂) λ sts s₃ h₃.
            after-Holds (Passed sts s₃) P Same (check_sts env es (sts_key env t).name sts s₃) _
              (check_sts-Passed es (sts_key env t).name sts s₃ h₃.0) λ _ s₄ h₄. last sts s₃ s₄ h₃ h₄
    where
      P : Unit {0} → State W → Type 0
      P _ s' = Queues t s'

      last :
          (sts : StatefulSet) (s₃ s₄ : State W)
          → Found t sts s₃
          → Passed sts s₃ tt s₄
          → Holds P Same (enqueue env t s₄)
      last sts s₃ s₄ h₃ h₄ =
          Holds-mono (Sent t s₄) P Same (enqueue env t s₄)
            (enqueue-Sent t s₄ (ap (λ s. s.task_queue) h₄.0 ∙ h₃.0))
            λ _ s₅ h₅. record {
              sent = h₅.0;
              room = h₅.2;
              sts = sts;
              found = rw (h₅.1, h₄.0) h₃.1;
              unowned = h₄.1;
              ready = h₄.2;
            }
