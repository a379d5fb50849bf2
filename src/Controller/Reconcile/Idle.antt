-- ===== src/Controller/Reconcile/Idle.antt =====
-- A call of `Reconcile` on a stateful set that has an owner of kind Elasticsearch and API version
-- `elasticsearch.k8s.elastic.co/v1`: it sends nothing,
-- and does not wait to send.
use es_snapshot_restore.Base.{◌≡◌, refl, true, [], String, ok, arith}
use es_snapshot_restore.Api.{NamespacedName, RestoreTask, Elasticsearch, StatefulSet}
use es_snapshot_restore.Controller.{State, Outcome, in_hand}
use es_snapshot_restore.Controller.Reconcile.{
  Step, go, stop, fetch_task, mark_started, fetch_es, add_node, grow, check_size, ensure_node,
  fetch_sts, sts_key, check_sts, has_es_owner, handle, reconcile, outcome, Env, ◌>>=◌,
}
use es_snapshot_restore.Controller.Reconcile.Operator.{IsOwned}
use es_snapshot_restore.Controller.Reconcile.Stages.{Holds, after-Holds, Holds-mono, Same}

module _ {Q NA T W : Type 0} (env : Env Q NA T W) (s₀ : State W) where
  open env use {cluster as k}

  -- The call ends without an entry in hand, and the queue is as it was.
  abbrev Idles : Outcome → State W → Type 0
  Idles o s = (in_hand o ≡ []) × (s.task_queue ≡ s₀.task_queue)

  abbrev Never : Unit {0} → State W → Type 0
  Never _ _ = ⊥

  fetch_task-Idles : (req : NamespacedName) → Holds (Same env s₀) Idles (fetch_task env req s₀)
  unfolding fetch_task
  fetch_task-Idles req = ground arith

  mark_started-Idles :
      (t : RestoreTask T) (s : State W)
      → Same env s₀ tt s
      → Holds (Same env s₀) Idles (mark_started env t s)
  unfolding mark_started
  mark_started-Idles t s h = ground arith

  fetch_es-Idles :
      (t : RestoreTask T) (s : State W)
      → Same env s₀ tt s
      → Holds (Same env s₀) Idles (fetch_es env t s)
  unfolding fetch_es
  fetch_es-Idles t s h = ground arith

  ensure_node-Idles :
      (t : RestoreTask T) (es : Elasticsearch Q NA) (s : State W)
      → Same env s₀ tt s
      → Holds (Same env s₀) Idles (ensure_node env t es s)
  unfolding ensure_node add_node check_size grow
  ensure_node-Idles t es s h = ground arith

  abbrev FoundOwned : StatefulSet → State W → Type 0
  FoundOwned sts s = Same env s₀ tt s × (has_es_owner sts.owner_references ≡ true)

  abbrev FoundSts : RestoreTask T → StatefulSet → State W → Type 0
  FoundSts t sts s = Same env s₀ tt s × (k.get_sts (sts_key env t) s.world ≡ ok sts)

  fetch_sts-FoundSts :
      (t : RestoreTask T) (s : State W)
      → Same env s₀ tt s
      → Holds (FoundSts t) Idles (fetch_sts env t s)
  unfolding fetch_sts
  fetch_sts-FoundSts t s h = ground arith

  fetch_sts-Idles :
      IsOwned env
      → (t : RestoreTask T) (s : State W) → Same env s₀ tt s
      → Holds FoundOwned Idles (fetch_sts env t s)
  fetch_sts-Idles owned t s h =
      Holds-mono (FoundSts t) FoundOwned Idles (fetch_sts env t s) (fetch_sts-FoundSts t s h)
        λ sts s₁ found. (found.0, owned t s₁.world sts found.1)

  check_sts-Idles :
      (es : Elasticsearch Q NA) (name : String) (sts : StatefulSet) (s : State W)
      → FoundOwned sts s
      → Holds Never Idles (check_sts env es name sts s)
  unfolding check_sts
  check_sts-Idles es name sts s h = rw (h.1, check_sts) (refl, h.0)

  handle-Idles :
      IsOwned env
      → (t : RestoreTask T) (s : State W) → Same env s₀ tt s
      → Holds Never Idles (handle env t s)
  unfolding handle
  handle-Idles owned t s h =
      after-Holds (Same env s₀) Never Idles (fetch_es env t s) _ (fetch_es-Idles t s h) λ es s₁ h₁.
        after-Holds (Same env s₀) Never Idles (ensure_node env t es s₁) _
          (ensure_node-Idles t es s₁ h₁)
          λ _ s₂ h₂.
            after-Holds FoundOwned Never Idles (fetch_sts env t s₂) _
              (fetch_sts-Idles owned t s₂ h₂)
              λ sts s₃ h₃.
                after-Holds Never Never Idles (check_sts env es (sts_key env t).name sts s₃) _
                  (check_sts-Idles es (sts_key env t).name sts s₃ h₃) λ _ s₄ never. absurd never

  outcome-Idles : (r : Step (Unit {0}) × State W) → Holds Never Idles r → Idles (outcome r.0) r.1
  outcome-Idles (go _, s) never = absurd never
  outcome-Idles (stop o, s) h = h

  -- If the stateful sets of node sets are owned by objects of kind Elasticsearch and API version
  -- `elasticsearch.k8s.elastic.co/v1`, a call neither sends
  -- nor waits to send.
  pub reconcile-Idles :
      IsOwned env → (req : NamespacedName) → Idles (reconcile env req s₀).0 (reconcile env req s₀).1
  unfolding reconcile
  reconcile-Idles owned req =
      outcome-Idles ((do t ← fetch_task env req; t' ← mark_started env t; handle env t') s₀) (
        after-Holds (Same env s₀) Never Idles (fetch_task env req s₀) _ (fetch_task-Idles req)
          λ t s₁ h₁.
            after-Holds (Same env s₀) Never Idles (mark_started env t s₁) _
              (mark_started-Idles t s₁ h₁) λ t' s₂ h₂. handle-Idles owned t' s₂ h₂)
