-- ===== src/Controller/Reconcile/Overwrites.antt =====
-- Two writers of one Elasticsearch object: `Reconcile` patches what it has read before.
use es_snapshot_restore.Base.{
  ◌≡◌, ◌≢◌, ap, ◌∙◌, String, false, Option, none, some, [], ◌∷◌, ◌++◌, ◌==◌, length, length-append,
  ok, arith, Option-cases, inl, inr,
}
use es_snapshot_restore.Api.{NamespacedName, RestoreTask, Elasticsearch, NodeSet}
use es_snapshot_restore.K8s.{Labels, new_es_node_set}
use es_snapshot_restore.K8s.Laws.{new_es_node_set_lem}
use es_snapshot_restore.Controller.{State}
use es_snapshot_restore.Controller.Reconcile.{go, find_node, add_node, ensure_node, es_key, Env}
use es_snapshot_restore.Controller.Reconcile.Nodes.{has_name, has_name-concat}

module _ {Q NA T W : Type 0} (env : Env Q NA T W) where
  open env use {quantities as q, cluster.{get_es, patch_es}, config as c}

  -- The key under which the API server has an object.
  abbrev pub key_of : Elasticsearch Q NA → NamespacedName
  key_of es = record { namespace = es.namespace; name = es.name }

  -- As the API server applies a merge patch without a resource version to the object that it is for: if
  -- the patch changes the number of the node sets, it holds the whole list, which then replaces the list
  -- that is stored, whatever that is by now.
  abbrev pub MergePatch : Type 0
  MergePatch =
      (old new stored : Elasticsearch Q NA) (w w' : W)
      → get_es (key_of old) w ≡ ok stored
      → length new.node_sets ≢ length old.node_sets
      → patch_es old new w ≡ (w', none)
      → (es : Elasticsearch Q NA) × (get_es (key_of old) w' ≡ ok es)
        × (es.node_sets ≡ new.node_sets)

  module _ (t : RestoreTask T) (es : Elasticsearch Q NA) (s s' : State W) where
    -- A stage that goes on has patched the node set in.
    abbrev Patched : Type 0
    Patched =
        (labels : Option Labels) × (n : NodeSet Q NA) × (new_es_node_set q c t.spec.node_name
            t.spec.store_size s.labels
          ≡ (labels, some n))
        × (patch_es es (record es { node_sets = es.node_sets ++ (n ∷ []) }) s.world
            ≡ (s'.world, none))

    ensure_node-Patched :
        find_node t.spec.node_name 0 none es.node_sets ≡ none
        → ensure_node env t es s ≡ (go tt, s')
        → Patched
    unfolding ensure_node add_node
    ensure_node-Patched missing goes =
        let made = new_es_node_set q c t.spec.node_name t.spec.store_size s.labels in
        elim (Option-cases (made.1)) [
          | inl crash ↦ absurd (ground (arith, missing, crash, goes))
          | inr (n, built) ↦
              (made.0, n, ap (λ x. (made.0, x)) built, ground (arith, missing, built, goes))
        ]

    -- If a merge patch replaces the list of the object that it is for, and `Reconcile` adds a node set to
    -- the object of the task, as it has read it, then the object is left without every other node set that was not there when it was read: one
    -- that was added in between, by the HTTP server or for another task, is lost.
    pub ensure_node-overwrites :
        MergePatch
        → (stored : Elasticsearch Q NA) (name : String) → get_es (es_key env t) s.world ≡ ok stored
        → es_key env t ≡ key_of es
        → find_node t.spec.node_name 0 none es.node_sets ≡ none
        → ensure_node env t es s ≡ (go tt, s')
        → has_name name es.node_sets ≡ false
        → (t.spec.node_name == name) ≡ false
        → (left : Elasticsearch Q NA) × (get_es (es_key env t) s'.world ≡ ok left)
          × (has_name name left.node_sets ≡ false)
    ensure_node-overwrites merges stored name found same missing goes absent other =
        let (labels, n, made, patched) = ensure_node-Patched missing goes in
        let (_, _, named, _, _) =
          new_es_node_set_lem q c t.spec.node_name t.spec.store_size s.labels made in
        let (left, reads, lists) =
          merges es (record es { node_sets = es.node_sets ++ (n ∷ []) }) stored s.world s'.world
            (rw same at found) (λ e. omega (arith, e, length-append es.node_sets (n ∷ [])))
            patched in
        (
          left,
          rw same reads,
          rw lists (has_name-concat name es.node_sets n absent (ap (λ x. x == name) named ∙ other)),
        )
