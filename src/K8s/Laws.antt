-- ===== src/K8s/Laws.antt =====
-- What `NewESNodeSet` builds, and what it leaves in the shared map.
use es_snapshot_restore.Base.{
  String, ◌≡◌, refl, Option, none, some, List, [], ◌∷◌, ◌==◌, eq_iff, if◌then◌else◌, arith,
}
use es_snapshot_restore.Api.{NodeSet, Quantities}
use es_snapshot_restore.K8s.{
  EsConfig, Labels, lookup, insert, instance_label, node_set, new_es_node_set,
}

-- What a map holds after a write.
pub lookup-insert {ℓ} :
    {V : Type ℓ} (written read : String) (new : V) (m : List (String × V))
    → lookup read (insert written new m) ≡ (if written == read then some new else lookup read m)
lookup-insert written read new [] = refl
lookup-insert written read new ((other, old) ∷ m) = ground (
  arith,
  lookup-insert written read new m,
  eq_iff other written,
  eq_iff other read,
  eq_iff written read,
)

module _ {F Q NA : Type 0} (q : Quantities Q) (c : EsConfig F NA) where
  -- A node set that is returned has the given name and the shared map as the labels of its pods, and
  -- that map, which the call has changed in place, now names this node set as the instance.
  pub new_es_node_set_lem :
      (name size : String) (old : Option Labels) {labels : Option Labels} {n : NodeSet Q NA}
      → new_es_node_set q c name size old ≡ (labels, some n)
      → (m : Labels) × (labels ≡ some m)
        × (n.name ≡ name)
        × (n.pod_template.labels ≡ m)
        × (lookup instance_label m ≡ some name)
  unfolding new_es_node_set node_set
  new_es_node_set_lem name size none h = cc
  new_es_node_set_lem name size (some old) h = (
    insert instance_label name old,
    ground arith,
    ground arith,
    ground arith,
    lookup-insert instance_label instance_label name old,
  )
