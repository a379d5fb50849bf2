-- ===== src/Http/Latest.antt =====
-- internal/http/utils.go, `QueryLatestSnapshotsViaIndex`: the newest successful snapshot of each
-- index, as a map from the indices' names.
use es_snapshot_restore.Base.{
  String, ◌≡◌, refl, Bool, true, false, Option, none, some, List, [], ◌∷◌, arith, ◌==◌, eq_iff,
  if◌then◌else◌, Result, ok, err, Option-cases, inl, inr, ap, ◌∙◌,
}
use es_snapshot_restore.Db.{EsIndex, EsSnapshot, Statement, query_all, Database}
use es_snapshot_restore.K8s.{lookup, insert}
use es_snapshot_restore.K8s.Laws.{lookup-insert}

unfoldable pub snapshot_query : String → Statement
snapshot_query name =
    query_all "start_time DESC" 1
      ("state = 'SUCCESS' AND JSON_CONTAINS(indices,JSON_QUOTE(?))" ∷ name ∷ [])

abbrev or_else : {A : Type 0} → Option A → Option A → Option A
or_else none b = b
or_else (some a) b = some a

or_else-none : {A : Type 0} (o : Option A) → or_else o none ≡ o
or_else-none none = refl
or_else-none (some a) = refl

module _ {T W : Type 0} (db : Database T W) where
  open db use {find_snapshots}

  -- What the query for one name gives: its row, if it succeeds with exactly one.
  unfoldable pub only_row : Result (List (EsSnapshot T)) → Option (EsSnapshot T)
  only_row (err e) = none
  only_row (ok []) = none
  only_row (ok (s ∷ [])) = some s
  only_row (ok (s ∷ t ∷ ss)) = none

  unfoldable pub latest : String → W → Option (EsSnapshot T)
  latest name w = only_row (find_snapshots (snapshot_query name) w)

  -- One round of the loop: an error or a missing snapshot leaves the map as it is.
  pub put_latest : W → List (String × EsSnapshot T) → String → List (String × EsSnapshot T)
  unfolding latest
  put_latest w all name = elim (latest name w) [ none ↦ all | some s ↦ insert name s all ]

  pub latest_loop :
      W → List (String × EsSnapshot T) → List (EsIndex T) → List (String × EsSnapshot T)
  latest_loop w all [] = all
  latest_loop w all (i ∷ is) = latest_loop w (put_latest w all i.name) is

  pub query_latest_snapshots_via_index : List (EsIndex T) → W → List (String × EsSnapshot T)
  unfolding latest_loop
  query_latest_snapshots_via_index is w = latest_loop w [] is

  abbrev pub named : String → List (EsIndex T) → Bool
  named name [] = false
  named name (i ∷ is) = if i.name == name then true else named name is

  put_latest-lookup :
      (w : W) (all : List (String × EsSnapshot T)) (name j : String)
      → lookup j (put_latest w all name)
        ≡ (if name == j then or_else (latest name w) (lookup j all) else lookup j all)
  unfolding put_latest
  put_latest-lookup w all name j = elim (Option-cases (latest name w)) [
    | inl e ↦ ground arith
    | inr (s, e) ↦ ground (arith, lookup-insert name j s all)
  ]

  latest_loop-lookup :
      (w : W) (all : List (String × EsSnapshot T)) (is : List (EsIndex T)) (j : String)
      → lookup j (latest_loop w all is)
        ≡ (if named j is then or_else (latest j w) (lookup j all) else lookup j all)
  unfolding latest_loop
  latest_loop-lookup w all [] j = refl
  latest_loop-lookup w all (i ∷ is) j = ground (
    arith,
    put_latest-lookup w all i.name j,
    latest_loop-lookup w (put_latest w all i.name) is j,
    eq_iff i.name j,
  )

  -- The map has an entry for just those names among the indices whose query gave exactly one row,
  -- and the entry is that row: an error for one index does not touch the others.
  pub query_latest_snapshots_lem :
      (is : List (EsIndex T)) (w : W) (j : String)
      → lookup j (query_latest_snapshots_via_index is w) ≡ (if named j is then latest j w else none)
  unfolding query_latest_snapshots_via_index
  query_latest_snapshots_lem is w j =
      latest_loop-lookup w [] is j
      ∙ ap (λ o. if named j is then o else none) (or_else-none (latest j w))
