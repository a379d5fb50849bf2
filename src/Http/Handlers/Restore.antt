-- ===== src/Http/Handlers/Restore.antt =====
-- internal/http/handler.go, `RestoreViaCR`: a row and a resource for each index to restore.
pub mod Accounts
use es_snapshot_restore.Base.{
  ℕ, zero, suc, String, ◌<>◌, Bool, true, false, not, Option, none, some, List, [], ◌∷◌, ◌++◌, ◌==◌,
  if◌then◌else◌, Error, Result, ok, err, is_nil,
}
use es_snapshot_restore.Api.{RestoreTask, Cluster}
use es_snapshot_restore.Db.{Task, Database}
use es_snapshot_restore.K8s.{EsConfig}
use es_snapshot_restore.Http.Handlers.{
  Reply, reply, bad_content_type, bad_request, task_failed, resource_failed, both_lists,
  success_list,
}

pub record RestoreViaCr : Type 0 where
  pub task_id : String
  pub index : String
  pub repository : String
  pub snapshot : String
  pub store_size : String

pub record RestoreViaCrRequest : Type 0 where
  pub tasks : List RestoreViaCr

-- The variables of the loop, with the replies written and the world.
pub record Progress (T W : Type 0) : Type 0 where
  pub success_taskes : List String
  pub failed_taskes : List String
  pub replies : List (Reply T)
  pub world : W

module _ {F Q NA T W : Type 0} (k : Cluster Q NA T W) (db : Database T W) (c : EsConfig F NA)
    (node_name : String) where
  open k use {create_task}
  open db use {create_tasks}

  unfoldable pub task_row : RestoreViaCr → Task T
  task_row t = record {
    id = 0;
    task_id = t.task_id;
    index = t.index;
    repository = t.repository;
    snapshot = t.snapshot;
    status = "";
    current_stage = none;
    payload = none;
    error_message = none;
    started_at = none;
    finished_at = none;
  }

  -- `suffix` is what `utils.RandomString(8)` drew.
  unfoldable pub resource : String → RestoreViaCr → RestoreTask T
  resource suffix t = record {
    namespace = c.namespace;
    name = node_name <> ("-" <> suffix);
    spec = record {
      task_id = t.task_id;
      node_name = node_name;
      store_size = t.store_size;
      snapshot = record { repository = t.repository; snapshot = t.snapshot };
      indices = t.index ∷ [];
      elasticsearch_ref = record { namespace = c.namespace; name = c.name };
    };
    status = record { reason = ""; start_at = none; finished_at = none; status = "" };
  }

  -- The row was not created: `continue`.
  pub row_failed : RestoreViaCr → Progress T W → W → Error → Progress T W
  row_failed t p w e = record p {
    failed_taskes = p.failed_taskes ++ (t.task_id ∷ []);
    replies = p.replies ++ (reply 500 (task_failed e) ∷ []);
    world = w;
  }

  -- After the resource: on an error too, the round ends with the append to `success_taskes`.
  pub resource_made : String → RestoreViaCr → Progress T W → W × Option Error → Progress T W
  resource_made name t p (w, none) = record p {
    success_taskes = p.success_taskes ++ (t.task_id ∷ []);
    world = w;
  }
  resource_made name t p (w, some e) = record p {
    success_taskes = p.success_taskes ++ (t.task_id ∷ []);
    failed_taskes = p.failed_taskes ++ (t.task_id ∷ []);
    replies = p.replies ++ (reply 500 (resource_failed name e) ∷ []);
    world = w;
  }

  pub row_made : String → RestoreViaCr → Progress T W → W × Option Error → Progress T W
  unfolding resource
  row_made suffix t p (w, some e) = row_failed t p w e
  row_made suffix t p (w, none) =
      resource_made (resource suffix t).name t p (create_task (resource suffix t) w)

  -- One round of the loop.
  pub round : String → RestoreViaCr → Progress T W → Progress T W
  unfolding task_row
  round suffix t p = row_made suffix t p (create_tasks (task_row t ∷ []) p.world)

  -- The loop; `draw i` is what `RandomString` draws in round `i`.
  pub rounds : (ℕ → String) → ℕ → List RestoreViaCr → Progress T W → Progress T W
  rounds draw i [] p = p
  rounds draw i (t ∷ ts) p = rounds draw (suc i) ts (round (draw i) t p)

  -- After the loop: the failures are answered with no return.
  pub final_replies : Progress T W → List (Reply T)
  final_replies p =
      let last = reply 200 (success_list p.success_taskes) ∷ [] in
      p.replies
      ++ (if is_nil p.failed_taskes
          then last
          else reply 500 (both_lists p.success_taskes p.failed_taskes) ∷ last)

  pub restore_all : (ℕ → String) → List RestoreViaCr → W → List (Reply T) × W
  unfolding rounds
  restore_all draw ts w =
      let p =
        rounds draw 0 ts
          (record { success_taskes = []; failed_taskes = []; replies = []; world = w }) in
      (final_replies p, p.world)

  unfoldable pub restore_via_cr :
      (ℕ → String) → String → Result RestoreViaCrRequest → W → List (Reply T) × W
  restore_via_cr draw content_type bound w =
      if not (content_type == "application/json")
      then (reply 400 (bad_content_type content_type) ∷ [], w)
      else elim bound [
        | err e ↦ (reply 400 (bad_request e) ∷ [], w)
        | ok r ↦ restore_all draw r.tasks w
      ]

-- `node_name` of the handler: the key, and `RandomName`, which begins with the key again.
unfoldable pub random_name : String → String → String
random_name key drawn = key <> ("-" <> drawn)

unfoldable pub restore_node_name : String → String → String
restore_node_name key drawn = key <> ("-" <> random_name key drawn)
