-- ===== src/Db.antt =====
-- internal/db/db.go: the rows, and the queries that the generic helpers build for gorm. The database
-- itself is outside the repository: a record of operations on a world `W`.
pub mod Time
pub mod Sizes
pub mod Open
use es_snapshot_restore.Base.{
  ℕ, String, Bool, true, false, Option, none, some, List, [], ◌∷◌, ◌==◌, eqb, if◌then◌else◌, Error,
  Result,
}
use es_snapshot_restore.Db.Time.{TimeString}

-- `T` stands for `time.Time`. `gorm.Model` is the key and three times that the library keeps.
pub record EsIndex (T : Type 0) : Type 0 where
  pub name : String
  pub index_create_at : TimeString T
  pub store_size : String

pub record EsSnapshot (T : Type 0) : Type 0 where
  pub snapshot : String
  pub repository : String
  pub state : String
  pub start_time : TimeString T
  pub indices : List String

pub record Task (T : Type 0) : Type 0 where
  pub id : ℕ  -- of `gorm.Model`
  pub task_id : String
  pub index : String
  pub repository : String
  pub snapshot : String
  pub status : String
  pub current_stage : Option String
  pub payload : Option String
  pub error_message : Option String
  pub started_at : Option T
  pub finished_at : Option T

-- A `SELECT`: `Where`, `Order` and `Limit`, each only if it was called.
pub record Statement : Type 0 where
  pub where_ : Option (String × List String)
  pub order : Option String
  pub limit : Option ℕ

-- `QueryAll`, up to the call of `Find`: `conds` is the text of the condition and its arguments.
unfoldable pub query_all : String → ℕ → List String → Statement
query_all order limit conds = record {
  where_ = elim conds [ [] ↦ none | text ∷ args ↦ some (text, args) ];
  order = if order == "" then none else some order;
  limit = if eqb limit 0 then none else some limit;
}

-- The columns that the repository writes by `Updates`, with `none` for one that is not written.
pub record Changes (T : Type 0) : Type 0 where
  pub status : Option String
  pub current_stage : Option String
  pub error_message : Option String
  pub updated_at : Option T

abbrev pub status_only : {T : Type 0} → String → Changes T
status_only s = record {
  status = some s;
  current_stage = none;
  error_message = none;
  updated_at = none;
}

-- The columns that decide a conflict, and those that are then overwritten.
pub record OnConflict : Type 0 where
  pub columns : List String
  pub do_updates : List String

-- `CreateIndexRecords` and `CreateSnapshotRecords`, up to the call of `Create`.
unfoldable pub create_index_clause : OnConflict
create_index_clause = record {
  columns = "name" ∷ [];
  do_updates = "store_size" ∷ "updated_at" ∷ [];
}

unfoldable pub create_snapshot_clause : OnConflict
create_snapshot_clause = record {
  columns = "name" ∷ [];
  do_updates = "Snapshot" ∷ "updated_at" ∷ [];
}

-- What is used of `*gorm.DB`. A write returns the new world and the error, if any.
pub record Database (T W : Type 0) : Type 0 where
  pub find_tasks : Statement → W → Result (List (Task T))
  pub find_indices : Statement → W → Result (List (EsIndex T))
  pub find_snapshots : Statement → W → Result (List (EsSnapshot T))
  pub create_tasks : List (Task T) → W → W × Option Error
  pub create_indices : OnConflict → List (EsIndex T) → W → W × Option Error
  pub create_snapshots : OnConflict → List (EsSnapshot T) → W → W × Option Error
  -- `db.Model(&t).Updates(...)`, on one row or on each of a slice of rows
  pub update_tasks : List (Task T) → Changes T → W → W × Option Error
