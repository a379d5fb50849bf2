-- ===== src/Controller/Reconcile/Nodes.antt =====
-- The node sets that `Reconcile` adds, and those that it leaves alone.
use es_snapshot_restore.Base.{
  ℕ, suc, ◌≡◌, refl, ◌<>◌, String, Bool, false, Option, some, none, List, [], ◌∷◌, ◌++◌, arith,
  ◌==◌, eq_iff, any, ok, if◌then◌else◌,
}
use text.Mathlib.TextLemmas.{append_assoc}
use es_snapshot_restore.Api.{RestoreTask, Elasticsearch, NodeSet, VolumeClaim}
use es_snapshot_restore.K8s.{Labels, new_es_node_set}
use es_snapshot_restore.K8s.Laws.{new_es_node_set_lem}
use es_snapshot_restore.Utils.Size.{codes, to_gb}
use es_snapshot_restore.Controller.{State, panicked}
use es_snapshot_restore.Controller.Reconcile.{
  go, stop, written, find_node, add_node, check_size, stored_gb, wanted_text, grow, ensure_node,
  Env,
}

module _ {Q NA : Type 0} where
  abbrev pub has_name : String → List (NodeSet Q NA) → Bool
  has_name name = any (λ n. n.name == name)

  -- No two node sets have the same name.
  abbrev pub Distinct : List (NodeSet Q NA) → Type 0
  Distinct [] = Unit
  Distinct (n ∷ ns) = (has_name n.name ns ≡ false) × Distinct ns

  find_node-some-ne-none :
      (name : String) (i : ℕ) (f : NodeSet Q NA × ℕ) (ns : List (NodeSet Q NA))
      → find_node name i (some f) ns ≡ none
      → ⊥
  unfolding find_node
  find_node-some-ne-none name i f [] h = cc
  find_node-some-ne-none name i f (n ∷ ns) h = ground (
    arith,
    find_node-some-ne-none name (suc i) f ns,
    find_node-some-ne-none name (suc i) (n, i) ns,
  )

  -- The search finds nothing only if no node set has the name.
  find_node-eq-none :
      (name : String) (i : ℕ) (ns : List (NodeSet Q NA))
      → find_node name i none ns ≡ none
      → has_name name ns ≡ false
  unfolding find_node
  find_node-eq-none name i [] h = refl
  find_node-eq-none name i (n ∷ ns) h =
      ground
        (arith, find_node-some-ne-none name (suc i) (n, i) ns, find_node-eq-none name (suc i) ns)

  pub has_name-concat :
      (name : String) (ns : List (NodeSet Q NA)) (m : NodeSet Q NA)
      → has_name name ns ≡ false
      → (m.name == name) ≡ false
      → has_name name (ns ++ (m ∷ [])) ≡ false
  has_name-concat name [] m h k = ground arith
  has_name-concat name (n ∷ ns) m h k = ground (arith, has_name-concat name ns m)

  Distinct-concat :
      (ns : List (NodeSet Q NA)) (m : NodeSet Q NA)
      → Distinct ns
      → has_name m.name ns ≡ false
      → Distinct (ns ++ (m ∷ []))
  Distinct-concat [] m d h = (refl, tt)
  Distinct-concat (n ∷ ns) m d h = (
    has_name-concat n.name ns m d.0 (ground (arith, eq_iff n.name m.name, eq_iff m.name n.name)),
    Distinct-concat ns m d.1 (ground arith),
  )

module _ {Q NA T W : Type 0} (env : Env Q NA T W) (t : RestoreTask T) (s : State W) where
  open env use {
    float as f,
    float.{Float, lt},
    quantities as q,
    quantities.{must_parse},
    cluster.{patch_es},
    config as c,
  }

  -- `MustParse` panics on a text that begins with a percent sign.
  abbrev pub RejectsPercent : Type 0
  RejectsPercent = (rest : String) → must_parse ("%" <> rest) ≡ none

  wanted_text-panics : RejectsPercent → (x : Float) → must_parse (wanted_text env x) ≡ none
  unfolding wanted_text
  wanted_text-panics rejects x =
      rw (append_assoc "%" "!s(float64=" (env.format_v x <> ")Gi"))
        (rejects ("!s(float64=" <> (env.format_v x <> ")Gi")))

  -- If the library refuses texts that begin with a percent sign, then a node set that exists, has a
  -- claim and is asked for in a readable size is never changed: the stage goes on if the claim is
  -- large enough, and panics if it has to grow.
  pub ensure_node_existing :
      RejectsPercent
      → (es : Elasticsearch Q NA) (n : NodeSet Q NA) (i : ℕ) (claim : VolumeClaim Q)
        (claims : List (VolumeClaim Q)) (wanted : Float)
      → find_node t.spec.node_name 0 none es.node_sets ≡ some (n, i)
      → n.volume_claim_templates ≡ claim ∷ claims
      → to_gb f (codes t.spec.store_size) ≡ ok wanted
      → ensure_node env t es s
        ≡ ((if lt (stored_gb env claim) wanted then stop panicked else go tt), s)
  unfolding ensure_node check_size grow
  ensure_node_existing rejects es n i claim claims wanted found has size =
      ground (arith, wanted_text-panics rejects wanted)

  -- If the node sets have distinct names, the task's is not among them and `NewESNodeSet` does not
  -- panic, then the new node set is appended by one patch, has the task's name, and the names in
  -- the patch are again distinct.
  pub ensure_node_missing :
      (es : Elasticsearch Q NA) {labels : Option Labels} {n : NodeSet Q NA}
      → find_node t.spec.node_name 0 none es.node_sets ≡ none
      → Distinct es.node_sets
      → new_es_node_set q c t.spec.node_name t.spec.store_size s.labels ≡ (labels, some n)
      → let es' = record es { node_sets = es.node_sets ++ (n ∷ []) } in
        (ensure_node env t es s ≡ written (record s { labels = labels }) (patch_es es es' s.world))
        × Distinct es'.node_sets
        × (n.name ≡ t.spec.node_name)
  unfolding ensure_node add_node
  ensure_node_missing es {labels} {n} missing distinct made =
      let made_lem = new_es_node_set_lem q c t.spec.node_name t.spec.store_size s.labels made in
      (
        ground arith,
        Distinct-concat es.node_sets n distinct
            (rw made_lem.2 (find_node-eq-none t.spec.node_name 0 es.node_sets missing)),
        made_lem.2,
      )
