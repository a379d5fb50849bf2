-- ===== src/Flow/Repeated.antt =====
-- Two requests for a node of the same name, and a removal: internal/http/handler.go and
-- internal/http/utils.go.
use es_snapshot_restore.Base.{suc, String, ◌≡◌, sym, ap, ◌∙◌, none, List, [], ◌∷◌, ◌++◌, ok, arith}
use es_snapshot_restore.Api.{NamespacedName, NodeSet, Elasticsearch, Quantities, Cluster}
use es_snapshot_restore.Db.{Task, Database, Changes}
use es_snapshot_restore.K8s.{EsConfig}
use es_snapshot_restore.Http.Nodes.{
  Server, returned, get_elasticsearch, keep_others, delete_from, delete_restore_es_node,
}
use es_snapshot_restore.Http.Nodes.Laws.{
  others, times, times-concat, others-named, keep_others-others,
}
use es_snapshot_restore.Http.Nodes.Removal.{PatchStoresEs, new_restore_es_node-Added}
use es_snapshot_restore.Http.Requests.{CreateRestoreNodeRequest}
use es_snapshot_restore.Http.Handlers.{Handled, Body, reply, to_running, create_restore_node}
use es_snapshot_restore.Http.Handlers.Replies.{create_restore_node-ok}

module _ {F Q NA T W : Type 0} (q : Quantities Q) (k : Cluster Q NA T W) (db : Database T W)
    (c : EsConfig F NA) where
  open k use {get_es, patch_es}
  open db use {update_tasks}

  -- An update of rows leaves the cluster as it is.
  abbrev pub UpdateKeepsEs : Type 0
  UpdateKeepsEs =
      (ts : List (Task T)) (change : Changes T) (key : NamespacedName) (w : W)
      → get_es key (update_tasks ts change w).0 ≡ get_es key w

  ok-injective : {A : Type 0} {a b : A} → ok a ≡ ok b → a ≡ b
  ok-injective e = ground arith

  to_running-get_elasticsearch :
      UpdateKeepsEs
      → (t : Task T) (w w' : W) → to_running q k db c t w ≡ (w', none)
      → get_elasticsearch q k c w' ≡ get_elasticsearch q k c w
  unfolding to_running get_elasticsearch
  to_running-get_elasticsearch keeps t w w' ran =
      ap (λ x. get_elasticsearch q k c (x.0)) (sym ran) ∙ keeps _ _ _ w

  -- An answer of 200 has appended a node set of the name.
  create_restore_node-appends :
      PatchStoresEs q k c
      → UpdateKeepsEs
      → (content_type : String) (r : CreateRestoreNodeRequest) (s : Server W) (b : Body T)
        (es : Elasticsearch Q NA) (h : Handled T W)
      → get_elasticsearch q k c s.world ≡ ok es
      → create_restore_node q k db c content_type (ok r) s ≡ h
      → h.replies ≡ reply 200 b ∷ []
      → (n : NodeSet Q NA) × (n.name ≡ r.name)
        × (get_elasticsearch q k c h.server.world
            ≡ ok (record es { node_sets = es.node_sets ++ (n ∷ []) }))
  unfolding get_elasticsearch
  create_restore_node-appends stores keeps content_type r s b es h found handled answered =
      let (r', same, created) =
        create_restore_node-ok q k db c content_type (ok r) s b
          (ap (λ x. x.replies) handled ∙ answered) in
      let (t, w, row, ran, made) = created in
      let added =
        new_restore_es_node-Added q k c r'.name r'.size (record s { world = w }) h.server
          (made ∙ ap (λ x. (x.server, returned none)) handled) in
      let before = to_running-get_elasticsearch keeps t s.world w ran ∙ found in
      let same_es : added.es ≡ es = ok-injective (sym added.found ∙ before) in
      let bigger = record es { node_sets = es.node_sets ++ (added.node ∷ []) } in
      (
        added.node,
        added.named ∙ ap (λ x. x.name) (sym (ok-injective same)),
        stores _ es bigger w h.server.world before (rw same_es at added.patched),
      )

  -- A removal that returns nil leaves the node sets of other names.
  delete_restore_es_node-others :
      PatchStoresEs q k c
      → (name : String) (s s' : Server W) (es : Elasticsearch Q NA)
      → get_elasticsearch q k c s.world ≡ ok es
      → delete_restore_es_node q k c name s ≡ (s', returned none)
      → get_elasticsearch q k c s'.world ≡ ok (record es { node_sets = others name es.node_sets })
  unfolding delete_restore_es_node delete_from get_elasticsearch
  delete_restore_es_node-others stores name s s' es found removed =
      let smaller = record es { node_sets = keep_others name [] es.node_sets } in
      let taken : patch_es es smaller s.world ≡ (s'.world, none) = ground arith in
      stores _ es smaller s.world s'.world found taken
      ∙ ap (λ ns. ok (record es { node_sets = ns })) (keep_others-others name [] es.node_sets)

  -- If the cluster stores what a patch writes, and updates of rows do not change it, then of two requests
  -- for nodes of one name, for whichever tasks, that are both answered by 200, one after the other, each
  -- adds a node set: the name is there twice more than before. A removal of the name that returns nil
  -- then takes both away, and leaves what had other names at the beginning.
  pub create_restore_node-repeats :
      PatchStoresEs q k c
      → UpdateKeepsEs
      → (content_type : String) (r r' : CreateRestoreNodeRequest) (b b' : Body T) (s s' : Server W)
        (es : Elasticsearch Q NA) (first second : Handled T W)
      → r'.name ≡ r.name
      → get_elasticsearch q k c s.world ≡ ok es
      → create_restore_node q k db c content_type (ok r) s ≡ first
      → first.replies ≡ reply 200 b ∷ []
      → create_restore_node q k db c content_type (ok r') first.server ≡ second
      → second.replies ≡ reply 200 b' ∷ []
      → delete_restore_es_node q k c r.name second.server ≡ (s', returned none)
      → ((es₂ : Elasticsearch Q NA) × (get_elasticsearch q k c second.server.world ≡ ok es₂)
          × (times r.name es₂.node_sets ≡ suc (suc (times r.name es.node_sets))))
        × (get_elasticsearch q k c s'.world
            ≡ ok (record es { node_sets = others r.name es.node_sets }))
  create_restore_node-repeats stores keeps content_type r r' b b' s s' es first second same found
        done once redone again gone =
      let (n, named, one) =
        create_restore_node-appends stores keeps content_type r s b es first found done once in
      let es₁ = record es { node_sets = es.node_sets ++ (n ∷ []) } in
      let (n', named', two) =
        create_restore_node-appends stores keeps content_type r' first.server b' es₁ second one
          redone again in
      let es₂ = record es { node_sets = es₁.node_sets ++ (n' ∷ []) } in
      let left = delete_restore_es_node-others stores r.name second.server s' es₂ two gone in
      let only =
        others-named r.name es₁.node_sets n' (named' ∙ same)
        ∙ others-named r.name es.node_sets n named in
      (
        (
          es₂,
          two,
          times-concat r.name es₁.node_sets n' (named' ∙ same)
              ∙ ap suc (times-concat r.name es.node_sets n named),
        ),
        left ∙ ap (λ ns. ok (record es { node_sets = ns })) only,
      )
