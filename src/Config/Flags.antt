-- ===== src/Config/Flags.antt =====
-- cmd/root.go and cmd/server.go: the flags; config/config.go: the fields that they fill in.
pub mod Fields
use es_snapshot_restore.Base.{ℕ, String, ◌<>◌, Bool, true, false, List, [], ◌∷◌, ◌++◌, map}

-- A flag's default, by the call that declares the flag. A decimal is written out.
pub data Default : Type 0 where
  string : String → Default
  int : ℕ → Default
  int32 : ℕ → Default
  bool : Bool → Default
  float64 : String → Default
  string_slice : List String → Default
  string_to_string : List (String × String) → Default

-- The type of a field of the configuration.
pub data FieldType : Type 0 where
  string int int32 bool float64 string_slice string_to_string node_affinity : FieldType

-- The type of field that takes a flag's value.
pub type_of : Default → FieldType
type_of (Default.string _) = FieldType.string
type_of (Default.int _) = FieldType.int
type_of (Default.int32 _) = FieldType.int32
type_of (Default.bool _) = FieldType.bool
type_of (Default.float64 _) = FieldType.float64
type_of (Default.string_slice _) = FieldType.string_slice
type_of (Default.string_to_string _) = FieldType.string_to_string

pub record Flag : Type 0 where
  pub name : String
  pub default : Default

-- The persistent flags of `NewRootCmd`.
unfoldable pub root_flags : List Flag
root_flags =
    record { name = "config-file"; default = Default.string "./config/config.yaml" }
    ∷ record { name = "env-prefix"; default = Default.string "APP_" }
    ∷ record { name = "es-host"; default = Default.string "127.0.0.1" }
    ∷ record { name = "es-port"; default = Default.int 9200 }
    ∷ record { name = "es-protocol"; default = Default.string "https" }
    ∷ record { name = "es-username"; default = Default.string "" }
    ∷ record { name = "es-password"; default = Default.string "" }
    ∷ record { name = "es-name"; default = Default.string "elasticsearch" }
    ∷ record { name = "es-namespace"; default = Default.string "elasticsearch" }
    ∷ []

-- The flags of `NewServerCmd`.
unfoldable pub server_flags : List Flag
server_flags =
    record { name = "http-host"; default = Default.string "127.0.0.1" }
    ∷ record { name = "http-port"; default = Default.int 8080 }
    ∷ record { name = "http-releasemode"; default = Default.bool false }
    ∷ record { name = "kibana-host"; default = Default.string "127.0.0.1" }
    ∷ record { name = "kibana-port"; default = Default.int 5601 }
    ∷ record { name = "db-host"; default = Default.string "" }
    ∷ record { name = "db-port"; default = Default.int 3306 }
    ∷ record { name = "db-username"; default = Default.string "" }
    ∷ record { name = "db-password"; default = Default.string "" }
    ∷ record { name = "db-name"; default = Default.string "es_snapshot_restore" }
    ∷ record { name = "redis-host"; default = Default.string "127.0.0.1" }
    ∷ record { name = "redis-port"; default = Default.int 6379 }
    ∷ record { name = "redis-password"; default = Default.string "" }
    ∷ record { name = "redis-db"; default = Default.int 0 }
    ∷ record { name = "cron-schedule"; default = Default.string "0 */10 * * * *" }
    ∷ record { name = "es-restorekey"; default = Default.string "restore" }
    ∷ record { name = "es-restorecount"; default = Default.int32 2 }
    ∷ record { name = "es-serviceaccount"; default = Default.string "elastic-search" }
    ∷ record {
      name = "es-plugins";
      default = Default.string_slice ("mapper-size" ∷ "repository-gcs" ∷ []);
    }
    ∷ record { name = "es-requestcpu"; default = Default.string "4" }
    ∷ record { name = "es-requestmem"; default = Default.string "8" }
    ∷ record { name = "es-limitcpu"; default = Default.string "4" }
    ∷ record { name = "es-limitmem"; default = Default.string "8" }
    ∷ record { name = "es-storageclass"; default = Default.string "standard-rwo" }
    ∷ record { name = "es-containername"; default = Default.string "elasticsearch" }
    ∷ record { name = "es-topologykey"; default = Default.string "kubernetes.io/hostname" }
    ∷ record { name = "es-diskminsize"; default = Default.float64 "10.0" }
    ∷ record { name = "es-randomlen"; default = Default.int 10 }
    ∷ record { name = "es-concurrency"; default = Default.int 2 }
    ∷ record { name = "es-maxtasks"; default = Default.int 100 }
    ∷ record { name = "es-timeout"; default = Default.int 10 }
    ∷ record { name = "es-interval"; default = Default.int 10 }
    ∷ record { name = "es-labels"; default = Default.string_to_string [] }
    ∷ record { name = "es-annotations"; default = Default.string_to_string [] }
    ∷ record { name = "es-tolerations"; default = Default.string_to_string [] }
    ∷ record { name = "kube-config"; default = Default.string "~/.kube/config" }
    ∷ []
