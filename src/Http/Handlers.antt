-- ===== src/Http/Handlers.antt =====
-- internal/http/handler.go. A handler is given the parts of the request that it looks at, what
-- `ShouldBind...` answers among them, and yields the replies that it writes, in order: gin sends
-- the first status and all the bodies.
pub mod Restore
pub mod Replies
pub mod Routes
use es_snapshot_restore.Base.{
  ℕ, String, ◌<>◌, Bool, true, false, not, Option, none, some, List, [], ◌∷◌, ◌++◌, map, ◌==◌,
  if◌then◌else◌, Error, Result, ok, err, length, eqb,
}
use es_snapshot_restore.Api.{Quantities, Cluster}
use es_snapshot_restore.Db.{EsIndex, EsSnapshot, Task, Statement, query_all, Changes, Database}
use es_snapshot_restore.Db.Sizes.{store_size, index_names}
use es_snapshot_restore.K8s.{EsConfig}
use es_snapshot_restore.Utils.{running, pending, failed, status_text, create_es_node, stag_text}
use es_snapshot_restore.Utils.Size.{Float64}
use es_snapshot_restore.Http.Query.{query_index_result_via_time}
use es_snapshot_restore.Http.Latest.{query_latest_snapshots_via_index}
use es_snapshot_restore.Http.Requests.{
  QueryIndexParam, RestoreSnapshotRequest, CreateRestoreNodeRequest, DeleteRestoreNodeRequest,
  RestoreSnapshotOneStepRequest,
}
use es_snapshot_restore.Http.Nodes.{
  Server, Call, returned, panicked, new_restore_es_node, delete_restore_es_node,
}

-- The JSON of a reply, by the call that writes it and what its text is made of.
pub data Body (T : Type 0) : Type 0 where
  bad_content_type : String → Body T
  bad_request : Error → Body T
  query_failed : Error → Body T
  indices : List String → String → Body T
  snapshots : List (String × EsSnapshot T) → String → Body T
  not_one_task : String → ℕ → Body T
  update_failed : String → Error → Body T
  node_failed : String → String → Error → Body T
  node_created : String → String → String → Body T
  task_failed : Error → Body T
  task_created : String → Body T
  delete_failed : String → Error → Body T
  deleted : String → Body T
  resource_failed : String → Error → Body T
  both_lists : List String → List String → Body T
  success_list : List String → Body T
  success : Body T

pub record Reply (T : Type 0) : Type 0 where
  pub status : ℕ
  pub body : Body T

abbrev pub reply : {T : Type 0} → ℕ → Body T → Reply T
reply code b = record { status = code; body = b }

-- What a handler leaves: the server and the replies, and whether it panicked. gin's `Recovery` then
-- answers in its place.
pub record Handled (T W : Type 0) : Type 0 where
  pub server : Server W
  pub replies : List (Reply T)
  pub panic : Bool

abbrev pub done : {T W : Type 0} → Server W → List (Reply T) → Handled T W
done s rs = record { server = s; replies = rs; panic = false }

abbrev pub crashed : {T W : Type 0} → Server W → List (Reply T) → Handled T W
crashed s rs = record { server = s; replies = rs; panic = true }

module _ {T W : Type 0} (f : Float64) (db : Database T W) (disk_min_size : f.Float) where
  open f use {Float, lt, format_f}

  abbrev pub get_index_gb_size : List (EsIndex T) → Float
  get_index_gb_size is = store_size f is

  abbrev pub get_index_names : List (EsIndex T) → List String
  get_index_names is = index_names is

  -- The size that is reported: at least the configured one.
  pub disk_size : List (EsIndex T) → Float
  disk_size is =
      let total = get_index_gb_size is in if lt total disk_min_size then disk_min_size else total

  unfoldable pub size_text : List (EsIndex T) → String
  unfolding disk_size
  size_text is = format_f (disk_size is) <> "Gi"

  unfoldable pub query_index : Result QueryIndexParam → W → List (Reply T)
  query_index (err e) w = reply 400 (bad_request e) ∷ []
  query_index (ok p) w = elim (query_index_result_via_time db p.name p.start_at p.end_at w) [
    | err e ↦ reply 500 (query_failed e) ∷ []
    | ok is ↦ reply 200 (indices (get_index_names is) (size_text is)) ∷ []
  ]

  unfoldable pub matched_snapshots : Result (List (EsIndex T)) → W → List (Reply T)
  matched_snapshots (err e) w = reply 500 (query_failed e) ∷ []
  matched_snapshots (ok is) w =
      reply 200 (snapshots (query_latest_snapshots_via_index db is w) (size_text is)) ∷ []

  unfoldable pub restore_snapshot : String → Result RestoreSnapshotRequest → W → List (Reply T)
  restore_snapshot content_type bound w =
      if not (content_type == "application/json")
      then reply 400 (bad_content_type content_type) ∷ []
      else elim bound [
        | err e ↦ reply 400 (bad_request e) ∷ []
        | ok p ↦ matched_snapshots (query_index_result_via_time db p.name p.start_at p.end_at w) w
      ]

module _ {F Q NA T W : Type 0} (q : Quantities Q) (k : Cluster Q NA T W) (db : Database T W)
    (c : EsConfig F NA) where
  open db use {find_tasks, create_tasks, update_tasks}

  -- `time.Now()` is the cluster's clock read in the world at hand.
  unfoldable pub to_running : Task T → W → W × Option Error
  to_running t w =
      update_tasks (t ∷ [])
        (record {
          status = some (status_text running);
          current_stage = some (stag_text create_es_node);
          error_message = none;
          updated_at = some (k.now w);
        })
        w

  pub to_failed : Task T → W → W × Option Error
  to_failed t w =
      update_tasks (t ∷ [])
        (record {
          status = some (status_text failed);
          current_stage = none;
          error_message = none;
          updated_at = some (k.now w);
        })
        w

  -- The node could not be created: mark the row. An error of that is answered too, with no return.
  pub node_error : Task T → CreateRestoreNodeRequest → Error → Server W → Handled T W
  unfolding to_failed
  node_error t r e s =
      let (w, dberr) = to_failed t s.world in
      let last = reply 500 (node_failed r.name r.size e) ∷ [] in
      done (record s { world = w })
        (elim dberr [ none ↦ last | some d ↦ reply 500 (update_failed r.task_id d) ∷ last ])

  unfoldable pub node_answer : Task T → CreateRestoreNodeRequest → Server W × Call → Handled T W
  node_answer t r (s, panicked) = crashed s []
  node_answer t r (s, returned (some e)) = node_error t r e s
  node_answer t r (s, returned none) =
      done s (reply 200 (node_created r.name r.size r.task_id) ∷ [])

  unfoldable pub create_for_task : Task T → CreateRestoreNodeRequest → Server W → Handled T W
  unfolding to_running
  create_for_task t r s =
      let (w, e) = to_running t s.world in
      let s' = record s { world = w } in
      elim e [
        | some x ↦ done s' (reply 500 (update_failed r.task_id x) ∷ [])
        | none ↦ node_answer t r (new_restore_es_node q k c r.name r.size s')
      ]

  unfoldable pub create_for_rows :
      CreateRestoreNodeRequest → Result (List (Task T)) → Server W → Handled T W
  create_for_rows r (err e) s = done s (reply 400 (query_failed e) ∷ [])
  create_for_rows r (ok (t ∷ [])) s = create_for_task t r s
  create_for_rows r (ok []) s = done s (reply 400 (not_one_task r.task_id 0) ∷ [])
  create_for_rows r (ok (t ∷ u ∷ ts)) s =
      done s (reply 400 (not_one_task r.task_id (length (t ∷ u ∷ ts))) ∷ [])

  unfoldable pub create_restore_node :
      String → Result CreateRestoreNodeRequest → Server W → Handled T W
  create_restore_node content_type bound s =
      if not (content_type == "application/json")
      then done s (reply 400 (bad_content_type content_type) ∷ [])
      else elim bound [
        | err e ↦ done s (reply 400 (bad_request e) ∷ [])
        | ok r ↦
            create_for_rows r (find_tasks (query_all "" 0 ("task_id = ?" ∷ r.task_id ∷ [])) s.world)
              s
      ]

  -- The rows' fields that a handler does not set.
  abbrev pub empty_task : Task T
  empty_task = record {
    id = 0;
    task_id = "";
    index = "";
    repository = "";
    snapshot = "";
    status = "";
    current_stage = none;
    payload = none;
    error_message = none;
    started_at = none;
    finished_at = none;
  }

  -- `id` is what `utils.TaskID` drew.
  unfoldable pub new_task : String → Server W → Handled T W
  new_task id s =
      let row = record empty_task {
        task_id = id;
        status = status_text pending;
        started_at = some (k.now s.world);
      } in
      let (w, e) = create_tasks (row ∷ []) s.world in
      done (record s { world = w })
        (elim e [
          | none ↦ reply 200 (task_created id) ∷ []
          | some x ↦ reply 500 (task_failed x) ∷ []
        ])

  unfoldable pub delete_answer : String → Server W × Call → Handled T W
  delete_answer name (s, panicked) = crashed s []
  delete_answer name (s, returned (some e)) = done s (reply 500 (delete_failed name e) ∷ [])
  delete_answer name (s, returned none) = done s (reply 200 (deleted name) ∷ [])

  unfoldable pub delete_restore_node : Result DeleteRestoreNodeRequest → Server W → Handled T W
  delete_restore_node (err e) s = done s (reply 400 (bad_request e) ∷ [])
  delete_restore_node (ok r) s = delete_answer r.name (delete_restore_es_node q k c r.name s)

  -- `DebugHandler` goes on after the reply to an error.
  unfoldable pub debug_answer : Server W × Call → Handled T W
  debug_answer (s, panicked) = crashed s []
  debug_answer (s, returned none) = done s (reply 200 success ∷ [])
  debug_answer (s, returned (some e)) =
      done s (reply 500 (delete_failed "restore-xxxx" e) ∷ reply 200 success ∷ [])

  unfoldable pub debug_handler : Server W → Handled T W
  debug_handler s = debug_answer (delete_restore_es_node q k c "restore-xxxx" s)

-- `RestoreSnapshotOneStep`, which so far answers without doing anything.
unfoldable pub restore_snapshot_one_step :
    {T : Type 0} → String → Result RestoreSnapshotOneStepRequest → List (Reply T)
restore_snapshot_one_step content_type bound =
    if not (content_type == "application/json")
    then reply 400 (bad_content_type content_type) ∷ []
    else elim bound [ err e ↦ reply 400 (bad_request e) ∷ [] | ok _ ↦ reply 200 success ∷ [] ]
