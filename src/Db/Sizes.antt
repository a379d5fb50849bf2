-- ===== src/Db/Sizes.antt =====
-- internal/db/utils.go: the total size and the names of a list of indices.
use es_snapshot_restore.Base.{
  String, ◌≡◌, refl, List, [], ◌∷◌, ◌++◌, map, Result, ok, err, arith, sym, ◌∙◌,
}
use mathlib.Core.List.{foldl, append_assoc, append-nil}
use es_snapshot_restore.Db.{EsIndex}
use es_snapshot_restore.Utils.Size.{Float64, codes, to_gb}

-- One round of `StoreSize`: a size that cannot be read is left out.
add_size : (f : Float64) → f.Float → Result f.Float → f.Float
add_size f total (ok gb) = f.add total gb
add_size f total (err e) = total

module _ {T : Type 0} (f : Float64) where
  open f use {Float, of_nat, add}

  store_size_loop : Float → List (EsIndex T) → Float
  store_size_loop total [] = total
  store_size_loop total (i ∷ is) =
      store_size_loop (add_size f total (to_gb f (codes i.store_size))) is

  pub store_size : List (EsIndex T) → Float
  store_size is = store_size_loop (of_nat 0) is

  -- The sizes that `ToGB` reads, in order.
  abbrev pub readable : List (EsIndex T) → List Float
  readable [] = []
  readable (i ∷ is) = elim (to_gb f (codes i.store_size)) [
    | ok gb ↦ gb ∷ readable is
    | err e ↦ readable is
  ]

  store_size_loop-foldl :
      (total : Float) (is : List (EsIndex T))
      → store_size_loop total is ≡ foldl add total (readable is)
  unfolding store_size_loop add_size
  store_size_loop-foldl total [] = refl
  store_size_loop-foldl total (i ∷ is) = ground (
    arith,
    store_size_loop-foldl total is,
    store_size_loop-foldl (add_size f total (to_gb f (codes i.store_size))) is,
  )

  -- The total is the sum, from the left, of the sizes that can be read; the others do not count.
  pub store_size_lem : (is : List (EsIndex T)) → store_size is ≡ foldl add (of_nat 0) (readable is)
  unfolding store_size
  store_size_lem is = store_size_loop-foldl (of_nat 0) is

module _ {T : Type 0} where
  -- The loop of `IndexNames`, which appends to `n`.
  index_names_loop : List String → List (EsIndex T) → List String
  index_names_loop n [] = n
  index_names_loop n (i ∷ is) = index_names_loop (n ++ (i.name ∷ [])) is

  pub index_names : List (EsIndex T) → List String
  index_names is = index_names_loop [] is

  index_names_loop-append :
      (n : List String) (is : List (EsIndex T)) → index_names_loop n is ≡ n ++ map (λ i. i.name) is
  unfolding index_names_loop
  index_names_loop-append n [] = sym (append-nil n)
  index_names_loop-append n (i ∷ is) =
      index_names_loop-append (n ++ (i.name ∷ [])) is
      ∙ append_assoc n (i.name ∷ []) (map (λ j. j.name) is)

  pub index_names-map : (is : List (EsIndex T)) → index_names is ≡ map (λ i. i.name) is
  unfolding index_names
  index_names-map is = index_names_loop-append [] is
