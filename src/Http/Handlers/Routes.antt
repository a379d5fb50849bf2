-- ===== src/Http/Handlers/Routes.antt =====
-- internal/http/handler.go, `RegisterHandler`: the routes, and the handler that each one calls.
pub mod Answers
use es_snapshot_restore.Base.{String, Result, List, [], ◌∷◌}
use es_snapshot_restore.Api.{Quantities, Cluster}
use es_snapshot_restore.Db.{Database}
use es_snapshot_restore.K8s.{EsConfig}
use es_snapshot_restore.Utils.Size.{Float64}
use es_snapshot_restore.Http.Nodes.{Server}
use es_snapshot_restore.Http.Requests.{
  QueryIndexParam, RestoreSnapshotRequest, CreateRestoreNodeRequest, DeleteRestoreNodeRequest,
}
use es_snapshot_restore.Http.Handlers.{
  Handled, done, query_index, restore_snapshot, new_task, create_restore_node, delete_restore_node,
  debug_handler,
}

pub data Method : Type 0 where
  get post put delete : Method

-- The handlers that are registered.
pub data Endpoint : Type 0 where
  indices restore task create_node delete_node debug : Endpoint

pub record Route : Type 0 where
  pub method : Method
  pub path : String
  pub endpoint : Endpoint

-- The calls of `e.GET` and the like, in order.
unfoldable pub register_handler : List Route
register_handler =
    record { method = get; path = "/indices"; endpoint = indices }
    ∷ record { method = post; path = "/restore"; endpoint = restore }
    ∷ record { method = put; path = "/task"; endpoint = task }
    ∷ record { method = put; path = "/node"; endpoint = create_node }
    ∷ record { method = delete; path = "/node"; endpoint = delete_node }
    ∷ record { method = get; path = "/debug"; endpoint = debug }
    ∷ []

-- What the handlers look at of a request: its content type, what gin binds to the type that each of
-- them asks for, and the id that `utils.TaskID` draws.
pub record Request : Type 0 where
  pub content_type : String
  pub query_span : Result QueryIndexParam
  pub body_span : Result RestoreSnapshotRequest
  pub body_node : Result CreateRestoreNodeRequest
  pub body_name : Result DeleteRestoreNodeRequest
  pub drawn_id : String

module _ {Q NA T W : Type 0} (f : Float64) (q : Quantities Q) (k : Cluster Q NA T W)
    (db : Database T W) (c : EsConfig f.Float NA) where
  -- The handler of an endpoint.
  pub serve : Endpoint → Request → Server W → Handled T W
  serve indices r s = done s (query_index f db c.disk_min_size r.query_span s.world)
  serve restore r s =
      done s (restore_snapshot f db c.disk_min_size r.content_type r.body_span s.world)
  serve task r s = new_task q k db c r.drawn_id s
  serve create_node r s = create_restore_node q k db c r.content_type r.body_node s
  serve delete_node r s = delete_restore_node q k db c r.body_name s
  serve debug r s = debug_handler q k db c s
