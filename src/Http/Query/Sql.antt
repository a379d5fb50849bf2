-- ===== src/Http/Query/Sql.antt =====
-- The conditions of the queries as SQL reads them: AND binds tighter than OR, so the text is a
-- disjunction of conjunctions, whose question marks take the arguments from left to right.
use es_snapshot_restore.Base.{
  ◌<>◌, String, ◌≡◌, sym, ap, ◌∙◌, Bool, true, false, ◌&&◌, ◌||◌, Option, none, some, List, [], ◌∷◌,
  ◌++◌, map, ◌↔◌, ok, arith,
}
use mathlib.Core.List.{Mem}
use text.Mathlib.TextLemmas.{append_assoc, append-nil}
use es_snapshot_restore.Db.{EsIndex, Database}
use es_snapshot_restore.Db.Time.{TimeString}
use es_snapshot_restore.K8s.{join}
use es_snapshot_restore.Http.Query.{pattern, name_query}

pub data Atom : Type 0 where
  name_like until since : Atom

abbrev pub atom_text : Atom → String
atom_text name_like = "name LIKE ?"
atom_text until = "index_create_at <= ?"
atom_text since = "index_create_at >= ?"

abbrev pub and_text : List Atom → String
and_text bs = join " AND " (map atom_text bs)

abbrev pub or_text : List (List Atom) → String
or_text ds = join " OR " (map and_text ds)

-- What the program appends to the condition on the names.
abbrev pub suffix : List Atom → String
suffix [] = ""
suffix (a ∷ bs) = " AND " <> (atom_text a <> suffix bs)

-- How SQL reads the text for the names `n` and `ns`: the suffix belongs to the last name alone.
abbrev pub groups : {A : Type 0} → List A → List Atom → List (List Atom)
groups [] extra = (name_like ∷ extra) ∷ []
groups (m ∷ ns) extra = (name_like ∷ []) ∷ groups ns extra

and_text-suffix : (a : Atom) (bs : List Atom) → and_text (a ∷ bs) ≡ atom_text a <> suffix bs
and_text-suffix a [] = sym (append-nil (atom_text a))
and_text-suffix a (b ∷ bs) = ap (λ s. atom_text a <> (" AND " <> s)) (and_text-suffix b bs)

abbrev or_after : String → String
or_after s = "name LIKE ?" <> (" OR " <> s)

or_suffix :
    (s : String) (extra : List Atom) → or_after s <> suffix extra ≡ or_after (s <> suffix extra)
or_suffix s extra =
    append_assoc "name LIKE ?" (" OR " <> s) (suffix extra)
    ∙ ap (λ u. "name LIKE ?" <> u) (append_assoc " OR " s (suffix extra))

-- The condition on the names `n` and `ns`, followed by the conditions `extra`, each put after AND,
-- is as a text the disjunction with one conjunction for each name, in which all of `extra` belongs
-- to the last name.
pub name_query-groups :
    (n : String) (ns : List String) (extra : List Atom)
    → name_query (n ∷ ns) <> suffix extra ≡ or_text (groups ns extra)
unfolding name_query
name_query-groups n [] extra = sym (and_text-suffix name_like extra)
name_query-groups n (m ∷ []) extra =
    or_suffix (name_query (m ∷ [])) extra ∙ ap or_after (name_query-groups m [] extra)
name_query-groups n (m ∷ k ∷ ns) extra =
    or_suffix (name_query (m ∷ k ∷ ns)) extra ∙ ap or_after (name_query-groups m (k ∷ ns) extra)

-- What is assumed of the database: how it parses a condition, how it matches and compares, and
-- what it holds.
pub record Meaning (T W : Type 0) : Type 0 where
  pub reads : String → Option (List (List Atom))
  pub like : String → String → Bool
  pub at_most : TimeString T → String → Bool
  pub at_least : TimeString T → String → Bool
  pub stored : W → List (EsIndex T)

module _ {T W : Type 0} (m : Meaning T W) where
  open m use {reads, like, at_most, at_least, stored}

  abbrev pub holds : Atom → String → EsIndex T → Bool
  holds name_like x r = like r.name x
  holds until x r = at_most r.index_create_at x
  holds since x r = at_least r.index_create_at x

  -- The value of a conjunction, and the arguments that are left.
  abbrev pub eval_and : List Atom → List String → EsIndex T → Bool × List String
  eval_and [] xs r = (true, xs)
  eval_and (a ∷ bs) [] r = (false, [])
  eval_and (a ∷ bs) (x ∷ xs) r = (holds a x r && (eval_and bs xs r).0, (eval_and bs xs r).1)

  abbrev pub eval_or : List (List Atom) → List String → EsIndex T → Bool
  eval_or [] xs r = false
  eval_or (d ∷ ds) xs r = (eval_and d xs r).0 || eval_or ds (eval_and d xs r).1 r

  -- The database reads the text of `ds` as `ds`: AND binds tighter than OR.
  abbrev pub Reads : List (List Atom) → Type 0
  Reads ds = reads (or_text ds) ≡ some ds

  -- A `SELECT` with no limit finds just the stored rows that satisfy its condition as it is read.
  abbrev pub Selects : Database T W → Type 0
  Selects db =
      (text : String) (ds : List (List Atom)) (args : List String) (order : Option String) (w : W)
      (rows : List (EsIndex T))
      → reads text ≡ some ds
      → db.find_indices (record { where_ = some (text, args); order = order; limit = none }) w
        ≡ ok rows
      → (r : EsIndex T) → Mem r rows ↔ (Mem r (stored w) × (eval_or ds args r ≡ true))

  -- Which rows the program asks for: those with one of the names but the last, at any time, and
  -- those with the last name in the span.
  abbrev pub asked : String → List String → List Atom → List String → EsIndex T → Bool
  asked n [] extra times r = like r.name (pattern n) && (eval_and extra times r).0
  asked n (m ∷ ns) extra times r = like r.name (pattern n) || asked m ns extra times r

  pub eval_or-groups :
      (n : String) (ns : List String) (extra : List Atom) (times : List String) (r : EsIndex T)
      → eval_or (groups ns extra) (map pattern (n ∷ ns) ++ times) r ≡ asked n ns extra times r
  eval_or-groups n [] extra times r = ground arith
  eval_or-groups n (m ∷ ns) extra times r = ground (arith, eval_or-groups m ns extra times r)
