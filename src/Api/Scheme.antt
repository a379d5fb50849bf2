-- ===== src/Api/Scheme.antt =====
-- The constants of internal/controller/api/v1/restoretask_types.go, which nothing uses, and what its
-- `init` and groupversion_info.go register.
use es_snapshot_restore.Base.{ℕ, String, List, [], ◌∷◌}

-- `Process`, an `int`
abbrev pub process_true : ℕ
process_true = 1

abbrev pub process_false : ℕ
process_false = 0

-- `Phase`
pub data Phase : Type 0 where
  get_es create_es_node_set increase_node_set_storage check_statefulset_status processing_restoring
        complete :
      Phase

unfoldable pub phase_text : Phase → String
phase_text get_es = "get_es"
phase_text create_es_node_set = "create_es_node_set"
phase_text increase_node_set_storage = "increase_node_set_storage"
phase_text check_statefulset_status = "check_sts_status"
phase_text processing_restoring = "processing_restoring"
phase_text complete = "complete"

pub record GroupVersion : Type 0 where
  pub group : String
  pub version : String

unfoldable pub group_version : GroupVersion
group_version = record { group = "restore.restore.elastic.co"; version = "v1" }

-- The types by their kinds.
unfoldable pub registered : List String
registered = "RestoreTask" ∷ "RestoreTaskList" ∷ []
