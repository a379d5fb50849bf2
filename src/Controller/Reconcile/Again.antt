-- ===== src/Controller/Reconcile/Again.antt =====
-- Calls of `Reconcile` for a task that is ready: each sends its entry, whatever came of the entries
-- that were sent before.
use mathlib.Core.List.{append_assoc, append-nil}
use es_snapshot_restore.Base.{
  capacity, ℕ, zero, suc, ◌+◌, ◌<◌, ◌≤◌, ◌≡◌, refl, ap, sym, ◌∙◌, true, false, ltb, eqb_iff, none,
  some, List, [], ◌∷◌, ◌++◌, length, length-append, ok, arith,
}
use es_snapshot_restore.Api.{
  NamespacedName, RestoreTask, Elasticsearch, NodeSet, VolumeClaim, StatefulSet,
}
use es_snapshot_restore.Utils.Size.{codes, to_gb}
use es_snapshot_restore.Controller.{Queued, State, returned}
use es_snapshot_restore.Controller.Reconcile.{
  Env, Step, go, Stage, after, outcome, has_es_owner, find_node, stored_gb, fetch_task,
  mark_started, es_key, fetch_es, check_size, ensure_node, sts_key, fetch_sts, check_sts,
  queue_entry, enqueue, handle, reconcile,
}

module _ {Q NA T W : Type 0} (env : Env Q NA T W) where
  open env use {float as f, cluster.{get_task, get_es, get_sts}, config as c}

  -- The task has a start, whichever end and status it has; the Elasticsearch object has a node set of
  -- its name that is large enough; and its stateful set is let through.
  pub record IsReady (req : NamespacedName) (t : RestoreTask T) (w : W) : Type 0 where
    pub found : get_task req w ≡ ok t
    pub start : T
    pub started : t.status.start_at ≡ some start
    pub es : Elasticsearch Q NA
    pub found_es : get_es (es_key env t) w ≡ ok es
    pub node : NodeSet Q NA
    pub place : ℕ
    pub found_node : find_node t.spec.node_name 0 none es.node_sets ≡ some (node, place)
    pub claim : VolumeClaim Q
    pub claims : List (VolumeClaim Q)
    pub has_claim : node.volume_claim_templates ≡ claim ∷ claims
    pub wanted : f.Float
    pub size : to_gb f (codes t.spec.store_size) ≡ ok wanted
    pub large : f.lt (stored_gb env claim) wanted ≡ false
    pub sts : StatefulSet
    pub found_sts : get_sts (sts_key env t) w ≡ ok sts
    pub unowned : has_es_owner sts.owner_references ≡ false
    pub ready : sts.replicas ≡ some sts.ready_replicas

  -- A stage that goes on, and the stages after it.
  after-go :
      {A B : Type 0} (r : Step A × State W) (k : A → Stage W B) (a : A) (s : State W)
      → r ≡ (go a, s)
      → after r k ≡ k a s
  after-go r k a s e = ap (λ x. after x k) e

  ltb_of : {a b : ℕ} → a < b → ltb a b ≡ true
  ltb_of h = ground arith

  module _ (req : NamespacedName) (t : RestoreTask T) (s : State W)
      (r : IsReady req t s.world) where
    fetch_task-go : fetch_task env req s ≡ (go t, s)
    unfolding fetch_task
    fetch_task-go = rw (r.found, fetch_task)

    mark_started-go : mark_started env t s ≡ (go t, s)
    unfolding mark_started
    mark_started-go = ground arith

    fetch_es-go : fetch_es env t s ≡ (go r.es, s)
    unfolding fetch_es
    fetch_es-go = rw (r.found_es, fetch_es)

    check_size-go : check_size env t r.es r.node r.place s ≡ (go tt, s)
    unfolding check_size
    check_size-go = rw (r.has_claim, r.size, r.large, check_size)

    ensure_node-go : ensure_node env t r.es s ≡ (go tt, s)
    unfolding ensure_node
    ensure_node-go = rw (r.found_node, ensure_node, check_size-go)

    fetch_sts-go : fetch_sts env t s ≡ (go r.sts, s)
    unfolding fetch_sts
    fetch_sts-go = rw (r.found_sts, fetch_sts)

    check_sts-go : check_sts env r.es (sts_key env t).name r.sts s ≡ (go tt, s)
    unfolding check_sts
    check_sts-go =
        rw (
          r.unowned,
          r.ready,
          check_sts,
          (eqb_iff r.sts.ready_replicas r.sts.ready_replicas).1 refl,
        )

    abbrev with_entry : State W
    with_entry = record s { task_queue = s.task_queue ++ (queue_entry env t ∷ []) }

    enqueue-go : length s.task_queue < capacity c.max_tasks → enqueue env t s ≡ (go tt, with_entry)
    unfolding enqueue
    enqueue-go room =
        let fits : ltb (length s.task_queue) (capacity c.max_tasks) ≡ true = ltb_of room in
        rw (fits, enqueue)

    handle-go : length s.task_queue < capacity c.max_tasks → handle env t s ≡ (go tt, with_entry)
    unfolding handle
    handle-go room =
        after-go (fetch_es env t s) _ r.es s fetch_es-go
        ∙ after-go (ensure_node env t r.es s) _ tt s ensure_node-go
        ∙ after-go (fetch_sts env t s) _ r.sts s fetch_sts-go
        ∙ after-go (check_sts env r.es (sts_key env t).name r.sts s) _ tt s check_sts-go
        ∙ enqueue-go room

    pub reconcile-go :
        length s.task_queue < capacity c.max_tasks
        → reconcile env req s
          ≡ (returned 0 none, record s { task_queue = s.task_queue ++ (queue_entry env t ∷ []) })
    unfolding reconcile
    reconcile-go room =
        ap (λ x. (outcome x.0, x.1))
          (after-go (fetch_task env req s) _ t s fetch_task-go
            ∙ after-go (mark_started env t s) _ t s mark_started-go
            ∙ handle-go room)

  -- So many copies of an entry.
  abbrev pub copies : ℕ → Queued → List Queued
  copies zero q = []
  copies (suc n) q = q ∷ copies n q

  -- So many calls for the same task, one after the other.
  abbrev pub calls : ℕ → NamespacedName → State W → State W
  calls zero req s = s
  calls (suc n) req s = calls n req (reconcile env req s).1

  -- If a task that has a start is ready, whichever end and status were recorded for it, then as many
  -- calls of `Reconcile` for it as the queue has room for send its entry as many times, and change
  -- nothing else.
  pub calls-IsReady :
      (n : ℕ) (req : NamespacedName) (t : RestoreTask T) (s : State W)
      → IsReady req t s.world
      → length s.task_queue + n ≤ capacity c.max_tasks
      → calls n req s ≡ record s { task_queue = s.task_queue ++ copies n (queue_entry env t) }
  calls-IsReady zero req t s r room =
      ap (λ q. record s { task_queue = q }) (sym (append-nil s.task_queue))
  calls-IsReady (suc n) req t s r room =
      let q = queue_entry env t in
      let s' = record s { task_queue = s.task_queue ++ (q ∷ []) } in
      ap (λ x. calls n req x.1) (reconcile-go req t s r (omega arith))
      ∙ calls-IsReady n req t s' r (omega (arith, length-append s.task_queue (q ∷ [])))
      ∙ ap (λ x. record s { task_queue = x }) (append_assoc s.task_queue (q ∷ []) (copies n q))
