-- ===== src/Http/Requests.antt =====
-- internal/http/handler.go: what gin binds the queries and bodies of requests to. Which texts it accepts, by
-- the tags of the fields, is its own matter.
use es_snapshot_restore.Base.{String, List}

pub record QueryIndexParam : Type 0 where
  pub name : List String
  pub start_at : String
  pub end_at : String

pub record RestoreSnapshotRequest : Type 0 where
  pub name : List String
  pub node : String
  pub start_at : String
  pub end_at : String

pub record CreateRestoreNodeRequest : Type 0 where
  pub task_id : String
  pub name : String
  pub size : String

pub record DeleteRestoreNodeRequest : Type 0 where
  pub name : String

pub record RestoreSnapshotOneStepRequest : Type 0 where
  pub task_id : String
  pub name : List String
  pub node : String
