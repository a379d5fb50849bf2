-- ===== src/Controller/Reconcile.antt =====
-- `Reconcile`, stage by stage. A stage goes on with a value or stops the call with its outcome.
pub mod Stages
pub mod Queueing
pub mod Sends
pub mod Idle
pub mod Again
pub mod Operator
pub mod Nodes
pub mod Overwrites
use es_snapshot_restore.Base.{
  capacity, ℕ, zero, suc, ◌<>◌, String, Bool, true, false, not, ◌&&◌, Option, none, some, List, [],
  ◌∷◌, ◌++◌, ◌==◌, eqb, ltb, if◌then◌else◌, length, Error, not_owned, Result, ok, err,
  ignore_not_found,
}
use es_snapshot_restore.Api.{
  NamespacedName, RestoreTask, RestoreTaskSpec, VolumeClaim, NodeSet, Elasticsearch, OwnerReference,
  StatefulSet, Quantities, Cluster,
}
use es_snapshot_restore.K8s.{EsConfig, sts_name, new_es_node_set}
use es_snapshot_restore.Utils.Size.{Float64, codes, to_gb}
use es_snapshot_restore.Controller.{Queued, State, Outcome, returned, panicked, waits}

pub data Step (A : Type 0) : Type 0 where
  go : A → Step A
  stop : Outcome → Step A

abbrev pub Stage : Type 0 → Type 0 → Type 0
Stage W A = State W → Step A × State W

abbrev pub after : {W A B : Type 0} → Step A × State W → (A → Stage W B) → Step B × State W
after (go a, s) k = k a s
after (stop o, s) k = (stop o, s)

infixl 5 ◌>>=◌ ◌>>◌
abbrev pub ◌>>=◌ : {W A B : Type 0} → Stage W A → (A → Stage W B) → Stage W B
◌>>=◌ m k s = after (m s) k

abbrev pub ◌>>◌ : {W B : Type 0} → Stage W (Unit {0}) → Stage W B → Stage W B
m >> k = m >>= λ _. k

abbrev pub fail : {A : Type 0} → Error → Step A
fail e = stop (returned 0 (some e))

-- A call that yields a value or ends `Reconcile` with its error.
abbrev pub or_fail : {A : Type 0} → Result A → Step A
or_fail (ok a) = go a
or_fail (err e) = fail e

-- A write that yields a value or ends `Reconcile` with its error.
abbrev pub updated : {W A : Type 0} → State W → W × Result A → Step A × State W
updated s (w, r) = (or_fail r, record s { world = w })

-- A write that ends `Reconcile` with its error.
abbrev pub written : {W : Type 0} → State W → W × Option Error → Step (Unit {0}) × State W
written s (w, none) = (go tt, record s { world = w })
written s (w, some e) = (fail e, record s { world = w })

-- `VolumeClaimTemplates[0].Spec.Resources = ...`
abbrev pub set_first_claim : {Q : Type 0} → Q → List (VolumeClaim Q) → List (VolumeClaim Q)
set_first_claim v [] = []
set_first_claim v (c ∷ cs) = record c { storage = some v } ∷ cs

module _ {Q NA : Type 0} where
  -- The loop over `es.Spec.NodeSets`, which keeps the last node set of the name, and its place.
  unfoldable pub find_node :
      String → ℕ → Option (NodeSet Q NA × ℕ) → List (NodeSet Q NA) → Option (NodeSet Q NA × ℕ)
  find_node name i found [] = found
  find_node name i found (n ∷ ns) =
      find_node name (suc i) (if n.name == name then some (n, i) else found) ns

  -- The same, for the claim of `NodeSets[i]`.
  unfoldable pub set_storage : ℕ → Q → List (NodeSet Q NA) → List (NodeSet Q NA)
  set_storage i v [] = []
  set_storage zero v (n ∷ ns) =
      record n { volume_claim_templates = set_first_claim v n.volume_claim_templates } ∷ ns
  set_storage (suc i) v (n ∷ ns) = n ∷ set_storage i v ns

-- The test of the loop over `sts.OwnerReferences`.
abbrev pub is_es_owner : OwnerReference → Bool
is_es_owner o = o.kind == "Elasticsearch" && o.api_version == "elasticsearch.k8s.elastic.co/v1"

abbrev pub has_es_owner : List OwnerReference → Bool
has_es_owner [] = false
has_es_owner (o ∷ os) = if is_es_owner o then true else has_es_owner os

abbrev pub outcome : Step (Unit {0}) → Outcome
outcome (go _) = returned 0 none
outcome (stop o) = o

-- What `Reconcile` is given: the numbers, the libraries, the cluster's client and the configuration.
-- `format_v` is `fmt.Sprintf("%v", x)`.
pub record Env (Q NA T W : Type 0) : Type 1 where
  pub float : Float64
  pub format_v : float.Float → String
  pub quantities : Quantities Q
  pub cluster : Cluster Q NA T W
  pub config : EsConfig float.Float NA

module _ {Q NA T W : Type 0} (env : Env Q NA T W) where
  open env use {
    float as f,
    float.{of_nat, div, lt},
    format_v,
    quantities as q,
    quantities.{must_parse, value},
    cluster.{now, get_task, update_task, get_es, patch_es, get_sts},
    config as c,
  }

  pub fetch_task : NamespacedName → Stage W (RestoreTask T)
  fetch_task req s = elim (get_task req s.world) [
    | ok t ↦ (go t, s)
    | err e ↦ (stop (returned 0 (ignore_not_found e)), s)
  ]

  -- Sets `StartAt` once. `Update` fills the task in with the server's answer.
  pub mark_started : RestoreTask T → Stage W (RestoreTask T)
  mark_started t s = elim t.status.start_at [
    | some _ ↦ (go t, s)
    | none ↦
        let started = record (t.status) { start_at = some (now s.world) } in
        updated s (update_task (record t { status = started }) s.world)
  ]

  unfoldable pub es_namespace : RestoreTask T → String
  es_namespace t =
      let ns = t.spec.elasticsearch_ref.namespace in if ns == "" then t.namespace else ns

  unfoldable pub es_key : RestoreTask T → NamespacedName
  unfolding es_namespace
  es_key t = record { namespace = es_namespace t; name = t.spec.elasticsearch_ref.name }

  pub fetch_es : RestoreTask T → Stage W (Elasticsearch Q NA)
  fetch_es t s = (or_fail (get_es (es_key t) s.world), s)

  -- No node set of the name: append a new one.
  pub add_node : RestoreTask T → Elasticsearch Q NA → Stage W (Unit {0})
  add_node t es s =
      let (labels, made) = new_es_node_set q c t.spec.node_name t.spec.store_size s.labels in
      let s' = record s { labels = labels } in
      elim made [
        | none ↦ (stop panicked, s')
        | some n ↦
            written s' (patch_es es (record es { node_sets = es.node_sets ++ (n ∷ []) }) s'.world)
      ]

  -- `fmt.Sprintf("%sGi", x)` of a float64: `fmt` writes the verb's mismatch into the text.
  pub wanted_text : f.Float → String
  wanted_text x = "%!s(float64=" <> (format_v x <> ")Gi")

  unfoldable pub stored_gb : VolumeClaim Q → f.Float
  stored_gb claim =
      let bytes : ℕ = elim (claim.storage) [ none ↦ 0 | some v ↦ value v ] in
      div (of_nat bytes) (of_nat 1073741824)

  -- A node set of the name, too small: write the wanted size into its first claim.
  pub grow : Elasticsearch Q NA → ℕ → f.Float → Stage W (Unit {0})
  grow es i wanted s = elim (must_parse (wanted_text wanted)) [
    | none ↦ (stop panicked, s)
    | some v ↦
        written s (patch_es es (record es { node_sets = set_storage i v es.node_sets }) s.world)
  ]

  -- A node set of the name: compare the sizes. The claim is read before the error is looked at.
  pub check_size : RestoreTask T → Elasticsearch Q NA → NodeSet Q NA → ℕ → Stage W (Unit {0})
  check_size t es n i s = elim (n.volume_claim_templates) [
    | [] ↦ (stop panicked, s)
    | claim ∷ claims ↦ elim (to_gb f (codes t.spec.store_size)) [
      | err e ↦ (fail e, s)
      | ok wanted ↦ if lt (stored_gb claim) wanted then grow es i wanted s else (go tt, s)
    ]
  ]

  pub ensure_node : RestoreTask T → Elasticsearch Q NA → Stage W (Unit {0})
  ensure_node t es s = elim (find_node t.spec.node_name 0 none es.node_sets) [
    | none ↦ add_node t es s
    | some (n, i) ↦ check_size t es n i s
  ]

  unfoldable pub sts_key : RestoreTask T → NamespacedName
  unfolding es_namespace
  sts_key t = record {
    namespace = es_namespace t;
    name = sts_name t.spec.elasticsearch_ref.name t.spec.node_name;
  }

  pub fetch_sts : RestoreTask T → Stage W StatefulSet
  fetch_sts t s = elim (get_sts (sts_key t) s.world) [
    | ok sts ↦ (go sts, s)
    | err e ↦ (stop (returned 10 (some e)), s)
  ]

  -- The loop over the owners, and the test of the replicas.
  unfoldable pub check_sts : Elasticsearch Q NA → String → StatefulSet → Stage W (Unit {0})
  check_sts es name sts s =
      if has_es_owner sts.owner_references
      then (fail (not_owned name es.name), s)
      else elim (sts.replicas) [
        | none ↦ (stop panicked, s)
        | some wanted ↦
            if eqb sts.ready_replicas wanted then (go tt, s) else (stop (returned 10 none), s)
      ]

  -- The literal that `Reconcile` sends: it has no namespace and no name.
  unfoldable pub queue_entry : RestoreTask T → Queued
  queue_entry t = record {
    namespace = "";
    name = "";
    task_id = t.spec.task_id;
    index = t.spec.indices;
  }

  pub enqueue : RestoreTask T → Stage W (Unit {0})
  unfolding queue_entry
  enqueue t s =
      if ltb (length s.task_queue) (capacity c.max_tasks)
      then (go tt, record s { task_queue = s.task_queue ++ (queue_entry t ∷ []) })
      else (stop (waits (queue_entry t)), s)

  -- After the first update: everything that follows from the task as it now is.
  pub handle : RestoreTask T → Stage W (Unit {0})
  handle t = do
    es ← fetch_es t
    ensure_node t es
    sts ← fetch_sts t
    check_sts es (sts_key t).name sts
    enqueue t

  pub reconcile : NamespacedName → State W → Outcome × State W
  unfolding handle
  reconcile req s =
      let (r, s') = (do t ← fetch_task req; t' ← mark_started t; handle t') s in (outcome r, s')
