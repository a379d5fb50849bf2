-- ===== src/Elastic.antt =====
-- internal/elastic/es.go: the requests to Elasticsearch, and what is made of the answers. The
-- transport and the JSON decoder are outside the repository: a record of operations on a world `W`.
pub mod Snapshots
pub mod Client
pub mod Request
use es_snapshot_restore.Base.{
  ℕ, String, ◌<>◌, Bool, true, false, Option, none, some, List, [], ◌∷◌, ◌++◌, eqb, if◌then◌else◌,
  Error, restore_refused, Result, ok, err, ◌>>=◌,
}
use es_snapshot_restore.K8s.{join}

pub record Index : Type 0 where
  pub name : String
  pub create_at : String
  pub store_size : String

pub record Repo : Type 0 where
  pub id : String

pub record CatSnapshot : Type 0 where
  pub id : String
  pub repository : String
  pub status : String

pub record Snapshot : Type 0 where
  pub snapshot : String
  pub repository : String
  pub state : String
  pub start_time : String
  pub indices : List String

pub record Recovery : Type 0 where
  pub index : String
  pub shard : String
  pub stage : String
  pub target_node : String
  pub recovered_percent : String

pub record CatIndicesRequest : Type 0 where
  pub format : String
  pub h : List String
  pub s : List String
  pub expand_wildcards : String

pub record CatRepositoriesRequest : Type 0 where
  pub format : String
  pub h : List String

pub record CatSnapshotsRequest : Type 0 where
  pub repository : List String
  pub format : String
  pub ignore_unavailable : Bool
  pub s : List String
  pub h : List String

pub record SnapshotGetRequest : Type 0 where
  pub repository : String
  pub snapshot : List String
  pub index_names : Bool

pub record SnapshotRestoreRequest : Type 0 where
  pub repository : String
  pub snapshot : String
  pub body : String

pub record CatRecoveryRequest : Type 0 where
  pub index : List String
  pub format : String
  pub h : List String

pub record Response : Type 0 where
  pub status_code : ℕ
  pub body : String

-- The client's `Do` for each request, and for those whose answer is decoded, the decoder: first the
-- values that it has filled in, then its error. `snapshot_restore` alone changes the world.
pub record Search (W : Type 0) : Type 0 where
  pub cat_indices : CatIndicesRequest → W → Result (Result (List Index))
  pub cat_repositories : CatRepositoriesRequest → W → Result (Result (List Repo))
  pub cat_snapshots : CatSnapshotsRequest → W → Result (Result (List CatSnapshot))
  pub snapshot_get : SnapshotGetRequest → W → Result (Result (List Snapshot))
  pub snapshot_restore : SnapshotRestoreRequest → W → W × Result Response
  pub cat_recovery : CatRecoveryRequest → W → Result (Result (List Recovery))

unfoldable pub cat_all_index_request : CatIndicesRequest
cat_all_index_request = record {
  format = "json";
  h = "index" ∷ "creation.date.string" ∷ "store.size" ∷ [];
  s = "creation.date.string" ∷ [];
  expand_wildcards = "all";
}

unfoldable pub cat_repo_request : CatRepositoriesRequest
cat_repo_request = record { format = "json"; h = "id" ∷ [] }

unfoldable pub cat_repo_snapshot_request : String → CatSnapshotsRequest
cat_repo_snapshot_request repo = record {
  repository = repo ∷ [];
  format = "json";
  ignore_unavailable = true;
  s = "id" ∷ [];
  h = "id" ∷ "repository" ∷ "status" ∷ [];
}

unfoldable pub get_snapshot_request : String → List String → SnapshotGetRequest
get_snapshot_request repo snapshot = record {
  repository = repo;
  snapshot = snapshot;
  index_names = true;
}

unfoldable pub cat_index_recovery_request : List String → CatRecoveryRequest
cat_index_recovery_request index = record {
  index = index;
  format = "json";
  h = "index,shard" ∷ "stage" ∷ "target_node" ∷ "bytes_percent" ∷ [];
}

abbrev concat : List String → String
concat [] = ""
concat (s ∷ ss) = s <> concat ss

-- The body of `RestoreSnapshotRequest` in pieces, blanks included.
abbrev restore_pieces : List String → String → String → String → List String
restore_pieces indices prefix key value =
    "{\n\t\t\"indices\": \""
    ∷ join "," indices
    ∷ "\",\n\t\t\"rename_pattern\": \"(.+)\",\n\t\t"
    ∷ "\"rename_replacement\": \""
    ∷ prefix
    ∷ "_"
    ∷ value
    ∷ "_$1\""
    ∷ ",\n\t\t\"ignore_index_settings\": [\"index.lifecycle.name\"],\n\t\t\"index_settings\": {\n"
    ∷ "\t\t\t\"index.hidden\": false,\n"
    ∷ "\t\t\t\"index.routing.allocation.include._tier_preference\": null,\n"
    ∷ "\t\t\t\"index.routing.allocation.exclude."
    ∷ key
    ∷ "\": null,\n\t\t\t"
    ∷ "\"index.routing.allocation.require."
    ∷ key
    ∷ "\": \""
    ∷ value
    ∷ "\""
    ∷ "\n\t\t}\n\t}"
    ∷ []

pub restore_body : List String → String → String → String → String
restore_body indices prefix key value = concat (restore_pieces indices prefix key value)

unfoldable pub restore_snapshot_request :
    String → String → String → String → String → List String → SnapshotRestoreRequest
unfolding restore_body
restore_snapshot_request repo snapshot prefix key value index = record {
  repository = repo;
  snapshot = snapshot;
  body = restore_body index prefix key value;
}

-- What `Restore` makes of the answer.
unfoldable pub restore_answer : List String → String → Result Response → Option Error
restore_answer index snapshot (err e) = some e
restore_answer index snapshot (ok r) =
    if eqb r.status_code 200 then none else some (restore_refused index snapshot r.body)

-- The loop of `GetAllSnapshotName`.
pub get_all_snapshot_name : List String → List CatSnapshot → List String
get_all_snapshot_name names [] = names
get_all_snapshot_name names (s ∷ ss) = get_all_snapshot_name (names ++ (s.id ∷ [])) ss

-- `snapshots.Snapshots`: on an error `GetSnapshotDetail` returns none.
abbrev pub details : Result (List Snapshot) → List Snapshot
details (ok ss) = ss
details (err e) = []

module _ {W : Type 0} (es : Search W) where
  open es use {
    cat_indices, cat_repositories, cat_snapshots, snapshot_get, snapshot_restore, cat_recovery,
  }

  unfoldable pub get_all_index : W → Result (List Index)
  get_all_index w = do decoded ← cat_indices cat_all_index_request w; decoded

  unfoldable pub get_all_repo : W → Result (List Repo)
  get_all_repo w = do decoded ← cat_repositories cat_repo_request w; decoded

  -- `GetAllSnaphost`
  unfoldable pub get_all_snapshot : String → W → Result (List CatSnapshot)
  get_all_snapshot repo w = do decoded ← cat_snapshots (cat_repo_snapshot_request repo) w; decoded

  unfoldable pub get_snapshot_detail : String → List String → W → Result (List Snapshot)
  get_snapshot_detail repo names w = do
    decoded ← snapshot_get (get_snapshot_request repo names) w
    decoded

  unfoldable pub get_restore_index_process : List String → W → Result (List Recovery)
  get_restore_index_process index w = do
    decoded ← cat_recovery (cat_index_recovery_request index) w
    decoded

  unfoldable pub restore :
      String → String → String → String → String → List String → W → W × Option Error
  restore repo snapshot prefix key value index w =
      let (w', r) =
        snapshot_restore (restore_snapshot_request repo snapshot prefix key value index) w in
      (w', restore_answer index snapshot r)

  -- One round of the loop of `GetAllSnapshotDetails`, after the listing.
  pub add_details : W → List Snapshot → Repo → Result (List CatSnapshot) → List Snapshot
  add_details w all r (err e) = all
  add_details w all r (ok []) = all
  add_details w all r (ok (s ∷ ss)) =
      all ++ details (get_snapshot_detail r.id (get_all_snapshot_name [] (s ∷ ss)) w)

  pub repo_details : W → List Snapshot → Repo → List Snapshot
  unfolding add_details
  repo_details w all r = add_details w all r (get_all_snapshot r.id w)

  pub details_loop : W → List Snapshot → List Repo → List Snapshot
  details_loop w all [] = all
  details_loop w all (r ∷ rs) = details_loop w (repo_details w all r) rs

  pub get_all_snapshot_details : W → Result (List Snapshot)
  unfolding details_loop
  get_all_snapshot_details w = do repos ← get_all_repo w; ok (details_loop w [] repos)
