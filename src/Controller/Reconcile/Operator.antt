-- ===== src/Controller/Reconcile/Operator.antt =====
-- `Reconcile` on stateful sets that the Elasticsearch operator has created, which it owns.
use es_snapshot_restore.Base.{◌≡◌, refl, ◌∙◌, true, List, [], ◌∷◌, inl, inr, ok}
use es_snapshot_restore.Api.{NamespacedName, RestoreTask, StatefulSet}
use es_snapshot_restore.Controller.{State}
use es_snapshot_restore.Controller.Reconcile.{Env, has_es_owner, sts_key, reconcile}
use es_snapshot_restore.Controller.Reconcile.Stages.{UpdateKeepsSpec}
use es_snapshot_restore.Controller.Reconcile.Queueing.{reconcile-queue}

module _ {Q NA T W : Type 0} (env : Env Q NA T W) where
  open env use {cluster as k}

  -- The stateful set of a task's node set, if the cluster has it, has an owner of kind Elasticsearch
  -- and API version `elasticsearch.k8s.elastic.co/v1`.
  abbrev pub IsOwned : Type 0
  IsOwned =
      (t : RestoreTask T) (w : W) (sts : StatefulSet)
      → k.get_sts (sts_key env t) w ≡ ok sts
      → has_es_owner sts.owner_references ≡ true

  -- Calls of `Reconcile` one after the other. Before each, others may have changed the world.
  abbrev pub reconcile_all : List ((W → W) × NamespacedName) → State W → State W
  reconcile_all [] s = s
  reconcile_all ((others, req) ∷ calls) s =
      reconcile_all calls (reconcile env req (record s { world = others s.world })).1

  reconcile-IsOwned :
      IsOwned
      → (s : State W) → UpdateKeepsSpec env s
      → (req : NamespacedName) → (reconcile env req s).1.task_queue ≡ s.task_queue
  reconcile-IsOwned owned s keeps req = elim (reconcile-queue env s keeps req) [
    | inl same ↦ same
    | inr (t, found, o, sent) ↦ absurd (cc (owned t _ sent.sts sent.found, sent.unowned))
  ]

  -- If the stateful sets of node sets are owned by objects of kind Elasticsearch and API version
  -- `elasticsearch.k8s.elastic.co/v1`, and updates keep the specification of a task, then no sequence of calls of `Reconcile`, whatever others do to the world
  -- in between, puts anything into the queue.
  pub reconcile_all-queue :
      IsOwned
      → (s : State W) → UpdateKeepsSpec env s
      → (calls : List ((W → W) × NamespacedName))
      → (reconcile_all calls s).task_queue ≡ s.task_queue
  reconcile_all-queue owned s keeps [] = refl
  reconcile_all-queue owned s keeps ((others, req) ∷ calls) =
      let s' = record s { world = others s.world } in
      reconcile_all-queue owned (reconcile env req s').1 keeps calls
      ∙ reconcile-IsOwned owned s' keeps req
