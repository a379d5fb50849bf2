-- ===== src/Elastic/Snapshots.antt =====
-- The snapshots that `GetAllSnapshotDetails` collects.
use es_snapshot_restore.Base.{String, ◌≡◌, sym, ap, ◌∙◌, List, [], ◌∷◌, ◌++◌, map, Result, ok, err}
use mathlib.Core.List.{append_assoc, append-nil}
use es_snapshot_restore.Elastic.{
  Repo, CatSnapshot, Snapshot, Search, get_all_repo, get_all_snapshot, get_snapshot_detail,
  get_all_snapshot_name, repo_details, add_details, details, details_loop, get_all_snapshot_details,
}

get_all_snapshot_name-append :
    (names : List String) (ss : List CatSnapshot)
    → get_all_snapshot_name names ss ≡ names ++ map (λ s. s.id) ss
unfolding get_all_snapshot_name
get_all_snapshot_name-append names [] = sym (append-nil names)
get_all_snapshot_name-append names (s ∷ ss) =
    get_all_snapshot_name-append (names ++ (s.id ∷ [])) ss
    ∙ append_assoc names (s.id ∷ []) (map (λ t. t.id) ss)

module _ {W : Type 0} (es : Search W) (w : W) where
  -- The snapshots of one repository: none if the listing fails or is empty, or if the details fail.
  abbrev pub of_repo : String → Result (List CatSnapshot) → List Snapshot
  of_repo repo (err e) = []
  of_repo repo (ok []) = []
  of_repo repo (ok (s ∷ ss)) = details (get_snapshot_detail es repo (map (λ t. t.id) (s ∷ ss)) w)

  abbrev pub all_of : List Repo → List Snapshot
  all_of [] = []
  all_of (r ∷ rs) = of_repo r.id (get_all_snapshot es r.id w) ++ all_of rs

  add_details-append :
      (all : List Snapshot) (r : Repo) (listing : Result (List CatSnapshot))
      → add_details es w all r listing ≡ all ++ of_repo r.id listing
  unfolding add_details
  add_details-append all r (err e) = sym (append-nil all)
  add_details-append all r (ok []) = sym (append-nil all)
  add_details-append all r (ok (s ∷ ss)) = rw (get_all_snapshot_name-append [] (s ∷ ss))

  repo_details-append :
      (all : List Snapshot) (r : Repo)
      → repo_details es w all r ≡ all ++ of_repo r.id (get_all_snapshot es r.id w)
  unfolding repo_details
  repo_details-append all r = add_details-append all r (get_all_snapshot es r.id w)

  details_loop-append :
      (all : List Snapshot) (rs : List Repo) → details_loop es w all rs ≡ all ++ all_of rs
  unfolding details_loop
  details_loop-append all [] = sym (append-nil all)
  details_loop-append all (r ∷ rs) =
      details_loop-append (repo_details es w all r) rs
      ∙ ap (λ u. u ++ all_of rs) (repo_details-append all r)
      ∙ append_assoc all (of_repo r.id (get_all_snapshot es r.id w)) (all_of rs)

  -- Once the repositories are listed the call succeeds, with the snapshots of each in turn: a
  -- repository that fails adds nothing and does not stop the others.
  pub get_all_snapshot_details_lem :
      (repos : List Repo)
      → get_all_repo es w ≡ ok repos
      → get_all_snapshot_details es w ≡ ok (all_of repos)
  unfolding get_all_snapshot_details
  get_all_snapshot_details_lem repos h =
      rw (h, get_all_snapshot_details) (ap ok (details_loop-append [] repos))
