-- ===== src/Utils.antt =====
-- internal/utils/types.go and utils.go.
pub mod Size
pub mod Random
use es_snapshot_restore.Base.{String}

-- `TaskStatus`, as it is stored in a row.
pub data TaskStatus : Type 0 where
  pending running success failed timeout canceled : TaskStatus

abbrev pub status_text : TaskStatus → String
status_text pending = "PENDING"
status_text running = "RUNNING"
status_text success = "SUCCESS"
status_text failed = "FAILED"
status_text timeout = "TIMEOUT"
status_text canceled = "CANCELED"

pub data Stag : Type 0 where
  init create_es_node check_es_node restore_index : Stag

abbrev pub stag_text : Stag → String
stag_text init = "INIT"
stag_text create_es_node = "CREATE_ES_NODE"
stag_text check_es_node = "CHECK_ES_NODE"
stag_text restore_index = "RESTORE_INDEX"
