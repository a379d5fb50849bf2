-- ===== src/Http/Nodes.antt =====
-- internal/http/utils.go: the node sets that the handlers add to and remove from Elasticsearch.
pub mod Laws
pub mod Removal
use es_snapshot_restore.Base.{
  String, Bool, true, false, Option, none, some, List, [], ◌∷◌, ◌++◌, ◌==◌, if◌then◌else◌, Error,
  Result, ok, err,
}
use es_snapshot_restore.Api.{NodeSet, Elasticsearch, Quantities, Cluster, NamespacedName}
use es_snapshot_restore.K8s.{EsConfig, Labels, new_es_node_set}

-- What a call can change: the shared map of labels and the cluster (with the database).
pub record Server (W : Type 0) : Type 0 where
  pub labels : Option Labels
  pub world : W

-- A call that returns an error or nil, or panics.
pub data Call : Type 0 where
  returned : Option Error → Call
  panicked : Call

-- The loop of `DeleteRestoreESNode`, which appends what it keeps.
pub keep_others :
    {Q NA : Type 0} → String → List (NodeSet Q NA) → List (NodeSet Q NA) → List (NodeSet Q NA)
keep_others name kept [] = kept
keep_others name kept (n ∷ ns) =
    keep_others name (if n.name == name then kept else kept ++ (n ∷ [])) ns

module _ {F Q NA T W : Type 0} (q : Quantities Q) (k : Cluster Q NA T W) (c : EsConfig F NA) where
  open k use {get_es, patch_es}

  unfoldable pub get_elasticsearch : W → Result (Elasticsearch Q NA)
  get_elasticsearch w = get_es (record { namespace = c.namespace; name = c.name }) w

  abbrev patched : Server W → W × Option Error → Server W × Call
  patched s (w, e) = (record s { world = w }, returned e)

  -- Appends, whether or not there is a node set of the name.
  unfoldable pub append_node :
      NodeSet Q NA → Result (Elasticsearch Q NA) → Server W → Server W × Call
  append_node n (err e) s = (s, returned (some e))
  append_node n (ok es) s =
      patched s (patch_es es (record es { node_sets = es.node_sets ++ (n ∷ []) }) s.world)

  unfoldable pub new_restore_es_node : String → String → Server W → Server W × Call
  new_restore_es_node name size s =
      let (labels, made) = new_es_node_set q c name size s.labels in
      let s' = record s { labels = labels } in
      elim made [ none ↦ (s', panicked) | some n ↦ append_node n (get_elasticsearch s.world) s' ]

  -- `MergeElasticsearch`: the object with the node set appended, and no patch.
  unfoldable pub merged : NodeSet Q NA → Result (Elasticsearch Q NA) → Result (Elasticsearch Q NA)
  merged n (err e) = err e
  merged n (ok es) = ok (record es { node_sets = es.node_sets ++ (n ∷ []) })

  unfoldable pub delete_from : String → Result (Elasticsearch Q NA) → Server W → Server W × Call
  delete_from name (err e) s = (s, returned (some e))
  delete_from name (ok es) s =
      patched s (patch_es es (record es { node_sets = keep_others name [] es.node_sets }) s.world)

  unfoldable pub delete_restore_es_node : String → Server W → Server W × Call
  delete_restore_es_node name s = delete_from name (get_elasticsearch s.world) s
