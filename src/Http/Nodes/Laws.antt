-- ===== src/Http/Nodes/Laws.antt =====
-- Adding a node set and removing it again.
use es_snapshot_restore.Base.{
  ℕ, suc, String, ◌≡◌, refl, sym, ◌∙◌, Bool, false, List, [], ◌∷◌, ◌++◌, ◌==◌, eq_iff,
  if◌then◌else◌, any, arith,
}
use mathlib.Core.List.{append_assoc, append-nil}
use es_snapshot_restore.Api.{NodeSet}
use es_snapshot_restore.Http.Nodes.{keep_others}

module _ {Q NA : Type 0} where
  abbrev pub has_name : String → List (NodeSet Q NA) → Bool
  has_name name = any (λ n. n.name == name)

  -- The node sets of other names, in order.
  abbrev pub others : String → List (NodeSet Q NA) → List (NodeSet Q NA)
  others name [] = []
  others name (n ∷ ns) = if n.name == name then others name ns else n ∷ others name ns

  pub keep_others-others :
      (name : String) (kept ns : List (NodeSet Q NA))
      → keep_others name kept ns ≡ kept ++ others name ns
  unfolding keep_others
  keep_others-others name kept [] = sym (append-nil kept)
  keep_others-others name kept (n ∷ ns) = ground (
    arith,
    keep_others-others name kept ns,
    keep_others-others name (kept ++ (n ∷ [])) ns,
    append_assoc kept (n ∷ []) (others name ns),
  )

  others-has_name :
      (name : String) (ns : List (NodeSet Q NA)) → has_name name (others name ns) ≡ false
  others-has_name name [] = refl
  others-has_name name (n ∷ ns) = ground (arith, others-has_name name ns)

  others-concat :
      (name : String) (ns : List (NodeSet Q NA)) (n : NodeSet Q NA)
      → has_name name ns ≡ false
      → n.name ≡ name
      → others name (ns ++ (n ∷ [])) ≡ ns
  others-concat name [] n h e = ground (arith, eq_iff n.name name)
  others-concat name (m ∷ ns) n h e = ground (arith, others-concat name ns n)

  -- How many node sets have the name.
  abbrev pub times : String → List (NodeSet Q NA) → ℕ
  times name [] = 0
  times name (n ∷ ns) = let rest = times name ns in if n.name == name then suc rest else rest

  pub times-concat :
      (name : String) (ns : List (NodeSet Q NA)) (n : NodeSet Q NA)
      → n.name ≡ name
      → times name (ns ++ (n ∷ [])) ≡ suc (times name ns)
  times-concat name [] n e = ground (arith, eq_iff n.name name)
  times-concat name (m ∷ ns) n e = ground (arith, times-concat name ns n)

  -- A node set of the name, added at the end, is not among the others.
  pub others-named :
      (name : String) (ns : List (NodeSet Q NA)) (n : NodeSet Q NA)
      → n.name ≡ name
      → others name (ns ++ (n ∷ [])) ≡ others name ns
  others-named name [] n e = ground (arith, eq_iff n.name name)
  others-named name (m ∷ ns) n e = ground (arith, others-named name ns n)

  -- What is left after a removal has no node set of the name.
  pub keep_others-has_name :
      (name : String) (ns : List (NodeSet Q NA)) → has_name name (keep_others name [] ns) ≡ false
  keep_others-has_name name ns = rw (keep_others-others name [] ns) (others-has_name name ns)

  -- Removing a node set that was added to a list without its name gives the list back.
  pub keep_others-concat :
      (name : String) (ns : List (NodeSet Q NA)) (n : NodeSet Q NA)
      → has_name name ns ≡ false
      → n.name ≡ name
      → keep_others name [] (ns ++ (n ∷ [])) ≡ ns
  keep_others-concat name ns n h e =
      keep_others-others name [] (ns ++ (n ∷ [])) ∙ others-concat name ns n h e
