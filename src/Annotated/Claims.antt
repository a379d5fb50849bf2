-- ===== src/Annotated/Claims.antt =====
-- Which stateful sets the earlier controller claims, and that it claims each once.
use es_snapshot_restore.Base.{
  Bool-cases, Option-cases, String, ◌≡◌, refl, ap, ◌∙◌, true, none, some, [], ◌∷◌, ◌++◌, ◌==◌,
  eq_iff, arith, length, Result, ok, err, ◌⊎◌, inl, inr, not_owned, eqb, ltb, eqb_iff,
}
use es_snapshot_restore.Api.{NamespacedName, StatefulSet, Elasticsearch}
use es_snapshot_restore.K8s.Laws.{lookup-insert}
use es_snapshot_restore.Controller.{
  State, restore_status_pending, restore_status_running, restore_status_done,
}
use es_snapshot_restore.Controller.Reconcile.{Env, check_sts, fail}
use es_snapshot_restore.Annotated.{
  SetTask, SetClient, SetState, returned, annotation, with_state, annotation_restore_task_id,
  annotation_restore_task_status, match_set, send_task, patched_set, claim_set, reconcile_set,
  update_set_status, work_set,
}

annotation-with_state :
    (status : String) (sts : StatefulSet)
    → annotation annotation_restore_task_status (with_state status sts) ≡ status
unfolding annotation with_state
annotation-with_state status sts = elim (Option-cases (sts.annotations)) [
  | inl nil ↦ rw nil refl
  | inr (m, set) ↦
      rw (set, lookup-insert annotation_restore_task_status annotation_restore_task_status status m)
        refl
]

id-with_state :
    (status : String) (sts : StatefulSet)
    → annotation annotation_restore_task_id (with_state status sts)
      ≡ annotation annotation_restore_task_id sts
unfolding annotation with_state
id-with_state status sts = elim (Option-cases (sts.annotations)) [
  | inl nil ↦ rw nil refl
  | inr (m, set) ↦
      rw (set, lookup-insert annotation_restore_task_status annotation_restore_task_id status m)
        refl
]

name-with_state : (status : String) (sts : StatefulSet) → (with_state status sts).name ≡ sts.name
unfolding with_state
name-with_state status sts = refl

with_state-ready :
    (status : String) (sts : StatefulSet)
    → sts.replicas ≡ some sts.ready_replicas
    → (with_state status sts).replicas ≡ some (with_state status sts).ready_replicas
unfolding with_state
with_state-ready status sts h = h

-- A stateful set that the earlier controller lets through, `Reconcile` of the present one refuses
-- with an error: the two test the owners in opposite ways.
pub match_set-check_sts :
    {Q NA T W : Type 0} (env : Env Q NA T W) (key : String) (es : Elasticsearch Q NA)
    (name : String) (sts : StatefulSet) (s : State W)
    → match_set key sts ≡ true
    → check_sts env es name sts s ≡ (fail (not_owned name es.name), s)
unfolding match_set check_sts
match_set-check_sts env key es name sts s h = ground arith

module _ {W : Type 0} (k : SetClient W) where
  open k use {get_sts, patch_sts}

  -- After a patch that succeeds and keeps the name, the key that gave the original gives the changed
  -- object.
  abbrev pub PatchStores : Type 0
  PatchStores =
      (req : NamespacedName) (old new : StatefulSet) (w w' : W)
      → get_sts req w ≡ ok old
      → new.name ≡ old.name
      → patch_sts old new w ≡ (w', none)
      → get_sts req w' ≡ ok new

  abbrev pub task_of : NamespacedName → StatefulSet → SetTask
  task_of req sts = record {
    task_id = annotation annotation_restore_task_id sts;
    namespace = req.namespace;
    name = req.name;
  }

  -- What a claim has seen and written.
  pub record Claims (req : NamespacedName) (s s' : SetState W) : Type 0 where
    pub sts : StatefulSet
    pub found : get_sts req s.world ≡ ok sts
    pub ready : sts.replicas ≡ some sts.ready_replicas
    pub pending : annotation annotation_restore_task_status sts ≡ restore_status_pending
    pub marked : patch_sts sts (with_state restore_status_running sts) s.world ≡ (s'.world, none)
    pub sent : s'.task_queue ≡ s.task_queue ++ (task_of req sts ∷ [])

  -- The same as a tuple, for a set that was found.
  abbrev Claimed : NamespacedName → StatefulSet → SetState W → SetState W → Type 0
  Claimed req sts s s' =
      ((annotation annotation_restore_task_status sts == restore_status_pending) ≡ true)
      × (patch_sts sts (with_state restore_status_running sts) s.world ≡ (s'.world, none))
      × (s'.task_queue ≡ s.task_queue ++ (task_of req sts ∷ []))

  claim_set-cases :
      (req : NamespacedName) (sts : StatefulSet) (s : SetState W)
      → ((claim_set k req sts s).1.task_queue ≡ s.task_queue)
        ⊎ Claimed req sts s (claim_set k req sts s).1
  unfolding claim_set patched_set send_task
  claim_set-cases req sts s =
      let e = (patch_sts sts (with_state restore_status_running sts) s.world).1 in
      let state = annotation annotation_restore_task_status sts in
      elim (Bool-cases (state == restore_status_pending)) [
        | inl pending ↦ elim (Option-cases e) [
          | inl fine ↦ elim (Bool-cases (ltb (length s.task_queue) 100)) [
            | inl room ↦ inr (pending, ground arith, ground arith)
            | inr full ↦ inl (ground arith)
          ]
          | inr (x, failed) ↦ inl (ground arith)
        ]
        | inr other ↦ inl (ground arith)
      ]

  reconcile_set-claim_set :
      (req : NamespacedName) (s : SetState W)
      → ((reconcile_set k req s).1 ≡ s)
        ⊎ ((sts : StatefulSet) × (get_sts req s.world ≡ ok sts)
            × (sts.replicas ≡ some sts.ready_replicas)
            × (reconcile_set k req s ≡ claim_set k req sts s))
  unfolding reconcile_set
  reconcile_set-claim_set req s = by_get (get_sts req s.world) refl
    where
      by_get :
          (r : Result StatefulSet)
          → get_sts req s.world ≡ r
          → ((reconcile_set k req s).1 ≡ s)
            ⊎ ((sts : StatefulSet) × (get_sts req s.world ≡ ok sts)
                × (sts.replicas ≡ some sts.ready_replicas)
                × (reconcile_set k req s ≡ claim_set k req sts s))
      by_get (err e) h = inl (ground arith)
      by_get (ok sts) h = elim (Option-cases (sts.replicas)) [
        | inl nil ↦ inl (ground arith)
        | inr (n, set) ↦ elim (Bool-cases (eqb sts.ready_replicas n)) [
          | inl same ↦ inr (sts, h, ground arith, ground arith)
          | inr other ↦ inl (ground arith)
        ]
      ]

  -- A call leaves the queue as it was, or it has claimed the set it was called for: all replicas
  -- were ready, its state was pending and is patched to running, and its entry is the queue's last.
  pub reconcile_set-Claims :
      (req : NamespacedName) (s : SetState W)
      → ((reconcile_set k req s).1.task_queue ≡ s.task_queue)
        ⊎ Claims req s (reconcile_set k req s).1
  reconcile_set-Claims req s = elim (reconcile_set-claim_set req s) [
    | inl same ↦ inl (ap (λ u. u.task_queue) same)
    | inr (sts, found, ready, same) ↦ rw same (elim (claim_set-cases req sts s) [
      | inl kept ↦ inl kept
      | inr (pending, marked, sent) ↦ inr (record {
        sts = sts;
        found = found;
        ready = ready;
        pending =
            (eq_iff (annotation annotation_restore_task_status sts) restore_status_pending).0
              pending;
        marked = marked;
        sent = sent;
      })
    ])
  ]

  -- If the cluster stores what a patch writes, then a second call after one that has claimed a set
  -- changes nothing and returns no error: a task is put into the queue once.
  pub reconcile_set_once :
      PatchStores
      → (req : NamespacedName) (s s' : SetState W) → Claims req s s'
      → reconcile_set k req s' ≡ (returned none, s')
  unfolding reconcile_set claim_set
  reconcile_set_once stores req s s' c =
      let marked = with_state restore_status_running c.sts in
      let found =
        stores req c.sts marked s.world s'.world c.found
          (name-with_state restore_status_running c.sts) c.marked in
      let running = annotation-with_state restore_status_running c.sts in
      let ready : marked.replicas ≡ some marked.ready_replicas =
        with_state-ready restore_status_running c.sts c.ready in
      rw (found, reconcile_set)
        (rw (ready, reconcile_set)
          (rw ((eqb_iff marked.ready_replicas marked.ready_replicas).1 refl, running, claim_set)
            refl))

  -- If the cluster stores what a patch writes, then the worker, once it is done with the entry of a
  -- set that was claimed and if its patch succeeds, leaves that set in the state done, under the
  -- same task.
  pub work_set_done :
      PatchStores
      → (req : NamespacedName) (s s' : SetState W) (c : Claims req s s') (w : W)
      → patch_sts
          (with_state restore_status_running c.sts)
          (with_state restore_status_done (with_state restore_status_running c.sts))
          s'.world
        ≡ (w, none)
      → (work_set k none (task_of req c.sts) s'.world ≡ w)
        × ((final : StatefulSet) × (get_sts req w ≡ ok final)
            × (annotation annotation_restore_task_status final ≡ restore_status_done)
            × (annotation annotation_restore_task_id final
                ≡ annotation annotation_restore_task_id c.sts))
  unfolding work_set update_set_status
  work_set_done stores req s s' c w written =
      let marked = with_state restore_status_running c.sts in
      let final = with_state restore_status_done marked in
      let found =
        stores req c.sts marked s.world s'.world c.found
          (name-with_state restore_status_running c.sts) c.marked in
      let same = id-with_state restore_status_running c.sts in
      let own =
        (eq_iff (annotation annotation_restore_task_id marked)
            (annotation annotation_restore_task_id c.sts)).1
          same in
      (
        rw (found, own, written, update_set_status) refl,
        (
          final,
          stores req marked final s'.world w found (name-with_state restore_status_done marked)
              written,
          annotation-with_state restore_status_done marked,
          id-with_state restore_status_done marked ∙ same,
        ),
      )
