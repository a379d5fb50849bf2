-- ===== src/Controller/Restore/Placement.antt =====
-- Where the restored index may be placed: the body of the request asks for nodes with an attribute,
-- and `NewESNodeSet` gives the nodes of a task theirs.
use text.Mathlib.TextEquality.{eq_iff}
use es_snapshot_restore.Base.{
  String, ◌<>◌, ◌≡◌, refl, ap, ◌∙◌, ◌↔◌, Option, none, some, List, [], ◌∷◌, arith,
}
use es_snapshot_restore.Api.{NodeSet, Setting, Quantities}
use es_snapshot_restore.Db.{Task, Database}
use es_snapshot_restore.K8s.{EsConfig, Labels, lookup, new_es_node_set, node_set}
use es_snapshot_restore.Elastic.{Search, restore_snapshot_request, restore, restore_answer}
use es_snapshot_restore.Elastic.Request.{Contains, replacement, requirement, restore_body-Contains}
use es_snapshot_restore.Controller.Restore.{finished, Wake, poll, mark_failed, run_restore}

module _ {F Q NA : Type 0} (q : Quantities Q) (c : EsConfig F NA) where
  -- The attribute of the nodes of a set that `NewESNodeSet` returns.
  attribute-new_es_node_set :
      (name size : String) (old : Option Labels) {labels : Option Labels} {n : NodeSet Q NA}
      → new_es_node_set q c name size old ≡ (labels, some n)
      → lookup ("node.attr." <> c.restore_key) n.config ≡ some (Setting.text name)
  unfolding new_es_node_set node_set
  attribute-new_es_node_set name size none h = cc
  attribute-new_es_node_set name size (some old) h =
      ground (arith, eq_iff ("node.attr." <> c.restore_key) ("node.attr." <> c.restore_key))

module _ {F Q NA T W : Type 0} (q : Quantities Q) (c : EsConfig F NA) (db : Database T W)
    (es : Search W) where
  -- The request that `restoreIndices` begins with for a row renames the index by the key and the
  -- repository, and requires nodes whose attribute of the key is the repository. The nodes of a set
  -- that `NewESNodeSet` has made have this attribute just if the set is named like the repository.
  pub run_restore-attribute :
      (t : Task T) (rows : List (Task T)) (wakes : List (Wake W)) (w : W) (name size : String)
      (old : Option Labels) {labels : Option Labels} {n : NodeSet Q NA}
      → new_es_node_set q c name size old ≡ (labels, some n)
      → let r =
          restore_snapshot_request t.repository t.snapshot c.restore_key c.restore_key t.repository
            (t.index ∷ []) in
        (run_restore db es c.restore_key c.timeout rows t wakes w ≡ (
          let (w', answer) = es.snapshot_restore r w in
          elim (restore_answer (t.index ∷ []) t.snapshot answer) [
            | none ↦ poll db es c.restore_key c.timeout rows t wakes w'
            | some x ↦ ((mark_failed db es c.restore_key c.timeout rows t w').0, finished (some x))
          ]))
        × Contains (replacement c.restore_key t.repository) r.body
        × Contains (requirement c.restore_key t.repository) r.body
        × ((lookup ("node.attr." <> c.restore_key) n.config ≡ some (Setting.text t.repository))
            ↔ (name ≡ t.repository))
  unfolding run_restore restore restore_snapshot_request
  run_restore-attribute t rows wakes w name size old {n = n} made =
      let (renamed, required) =
        restore_body-Contains (t.index ∷ []) c.restore_key c.restore_key t.repository in
      let own = attribute-new_es_node_set q c name size old made in
      (
        refl,
        renamed,
        required,
        (λ h. ground (arith, h, own), λ h. own ∙ ap (λ s. some (Setting.text s)) h),
      )
