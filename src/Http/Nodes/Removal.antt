-- ===== src/Http/Nodes/Removal.antt =====
-- A node set that `NewRestoreESNode` adds and `DeleteRestoreESNode` removes, on a cluster that
-- stores what a patch writes.
use es_snapshot_restore.Base.{
  String, ◌≡◌, refl, ap, ◌∙◌, false, none, [], ◌∷◌, ◌++◌, arith, ok, err, Result, Option-cases, inl,
  inr,
}
use es_snapshot_restore.Api.{NamespacedName, NodeSet, Elasticsearch, Quantities, Cluster}
use es_snapshot_restore.K8s.{EsConfig, new_es_node_set}
use es_snapshot_restore.K8s.Laws.{new_es_node_set_lem}
use es_snapshot_restore.Http.Nodes.{
  Server, returned, get_elasticsearch, append_node, new_restore_es_node, keep_others, delete_from,
  delete_restore_es_node,
}
use es_snapshot_restore.Http.Nodes.Laws.{has_name, keep_others-concat}

module _ {F Q NA T W : Type 0} (q : Quantities Q) (k : Cluster Q NA T W) (c : EsConfig F NA) where
  open k use {get_es, patch_es}

  -- After a patch that succeeds, the key that gave the original gives the changed object.
  abbrev pub PatchStoresEs : Type 0
  PatchStoresEs =
      (key : NamespacedName) (old new : Elasticsearch Q NA) (w w' : W)
      → get_es key w ≡ ok old
      → patch_es old new w ≡ (w', none)
      → get_es key w' ≡ ok new

  -- What a call of `NewRestoreESNode` that returns nil has done.
  pub record Added (name : String) (s s' : Server W) : Type 0 where
    pub es : Elasticsearch Q NA
    pub node : NodeSet Q NA
    pub found : get_elasticsearch q k c s.world ≡ ok es
    pub named : node.name ≡ name
    pub patched :
        patch_es es (record es { node_sets = es.node_sets ++ (node ∷ []) }) s.world
        ≡ (s'.world, none)

  append_node-Added :
      (n : NodeSet Q NA) (name : String) (s s₁ s' : Server W) (r : Result (Elasticsearch Q NA))
      → n.name ≡ name
      → s₁.world ≡ s.world
      → get_elasticsearch q k c s.world ≡ r
      → append_node q k c n r s₁ ≡ (s', returned none)
      → Added name s s'
  unfolding append_node
  append_node-Added n name s s₁ s' (err e) named same found h = absurd (ground arith)
  append_node-Added n name s s₁ s' (ok es) named same found h = record {
    es = es;
    node = n;
    found = found;
    named = named;
    patched = ground arith;
  }

  pub new_restore_es_node-Added :
      (name size : String) (s s' : Server W)
      → new_restore_es_node q k c name size s ≡ (s', returned none)
      → Added name s s'
  unfolding new_restore_es_node
  new_restore_es_node-Added name size s s' h =
      let made = new_es_node_set q c name size s.labels in
      elim (Option-cases (made.1)) [
        | inl crash ↦ absurd (ground arith)
        | inr (n, built) ↦
            append_node-Added n name s (record s { labels = made.0 }) s'
              (get_elasticsearch q k c s.world)
              (new_es_node_set_lem q c name size s.labels {labels = made.0} {n = n}
                (ground arith)).2
              refl refl (ground arith)
      ]

  -- If the cluster stores what a patch writes, a node set is added under a name that no other has,
  -- and both calls return nil, then its removal gives the Elasticsearch object back as it was.
  pub delete_restore_es_node-new_restore_es_node :
      PatchStoresEs
      → (name size : String) (es : Elasticsearch Q NA) (s s₁ s₂ : Server W)
      → get_elasticsearch q k c s.world ≡ ok es
      → has_name name es.node_sets ≡ false
      → new_restore_es_node q k c name size s ≡ (s₁, returned none)
      → delete_restore_es_node q k c name s₁ ≡ (s₂, returned none)
      → get_elasticsearch q k c s₂.world ≡ ok es
  unfolding delete_restore_es_node delete_from get_elasticsearch
  delete_restore_es_node-new_restore_es_node stores name size es s s₁ s₂ found fresh made removed =
      let key : NamespacedName = record { namespace = c.namespace; name = c.name } in
      let added = new_restore_es_node-Added name size s s₁ made in
      let same : added.es ≡ es = cc (added.found, found) in
      let bigger = record es { node_sets = es.node_sets ++ (added.node ∷ []) } in
      let now_bigger = stores key es bigger s.world s₁.world found (rw same at (added.patched)) in
      let kept = keep_others-concat name es.node_sets added.node fresh added.named in
      let smaller = record bigger { node_sets = keep_others name [] bigger.node_sets } in
      let taken : patch_es bigger smaller s₁.world ≡ (s₂.world, none) = ground arith in
      stores key bigger smaller s₁.world s₂.world now_bigger taken
      ∙ ap (λ ns. ok (record es { node_sets = ns })) kept
