-- ===== src/Api.antt =====
-- The objects of the Kubernetes API that the program reads and writes: internal/controller/api/v1
-- (the same file twice more in the repository), and the fields that it uses of the types of other
-- packages. `T` stands for `metav1.Time`, `Q` for `resource.Quantity`.
pub mod Memory
pub mod DeepCopy
pub mod Scheme
use es_snapshot_restore.Base.{ℤ, ℕ, String, Bool, Option, List, Error, Result}

pub record NamespacedName : Type 0 where
  pub namespace : String
  pub name : String

pub record SnapshotRef : Type 0 where
  pub repository : String
  pub snapshot : String

pub record ElasticsearchRef : Type 0 where
  pub namespace : String
  pub name : String

pub record RestoreTaskSpec : Type 0 where
  pub task_id : String
  pub node_name : String
  pub store_size : String
  pub snapshot : SnapshotRef
  pub indices : List String
  pub elasticsearch_ref : ElasticsearchRef

-- `Conditions` is never read or written by the program, and left out.
pub record RestoreTaskStatus (T : Type 0) : Type 0 where
  pub reason : String
  pub start_at : Option T
  pub finished_at : Option T
  pub status : String

-- The custom resource. Of the metadata the program uses the two names.
pub record RestoreTask (T : Type 0) : Type 0 where
  pub namespace : String
  pub name : String
  pub spec : RestoreTaskSpec
  pub status : RestoreTaskStatus T

pub record Toleration : Type 0 where
  pub key : String
  pub operator : String
  pub value : String

-- The storage request of a claim: an entry that the map may lack.
pub record VolumeClaim (Q : Type 0) : Type 0 where
  pub name : String
  pub labels : List (String × String)
  pub annotations : List (String × String)
  pub access_modes : List String
  pub storage : Option Q
  pub storage_class : Option String

pub record Container (Q : Type 0) : Type 0 where
  pub name : String
  pub command : List String
  pub limits : List (String × Q)
  pub requests : List (String × Q)

-- `NA` stands for `v1.NodeAffinity`, which is passed on as it is configured.
pub record PodTemplate (Q NA : Type 0) : Type 0 where
  pub name : String
  pub labels : List (String × String)
  pub annotations : List (String × String)
  pub node_affinity : NA
  pub topology_key : String
  pub anti_affinity_labels : List (String × String)
  pub tolerations : List Toleration
  pub service_account : String
  pub init_containers : List (Container Q)
  pub containers : List (Container Q)

pub data Setting : Type 0 where
  text : String → Setting
  flag : Bool → Setting
  texts : List String → Setting

pub record NodeSet (Q NA : Type 0) : Type 0 where
  pub name : String
  pub count : ℤ
  pub config : List (String × Setting)
  pub pod_template : PodTemplate Q NA
  pub volume_claim_templates : List (VolumeClaim Q)

pub record Elasticsearch (Q NA : Type 0) : Type 0 where
  pub namespace : String
  pub name : String
  pub node_sets : List (NodeSet Q NA)

pub record OwnerReference : Type 0 where
  pub kind : String
  pub api_version : String

-- `replicas` is the pointer `*sts.Spec.Replicas`.
pub record StatefulSet : Type 0 where
  pub name : String
  pub annotations : Option (List (String × String))
  pub owner_references : List OwnerReference
  pub replicas : Option ℕ
  pub ready_replicas : ℕ

-- Of the libraries: `resource.MustParse` (`none` where it panics), `Quantity.Value`, and the label
-- `StatefulSetNameLabelName` of the operator.
pub record Quantities (Q : Type 0) : Type 0 where
  pub sts_name_label : String
  pub must_parse : String → Option Q
  pub value : Q → ℕ

-- What is used of the client of controller-runtime. A write returns the new world; `Update` also
-- fills the object in with the server's answer; `Patch` is given the original and the changed object.
pub record Cluster (Q NA T W : Type 0) : Type 0 where
  pub now : W → T
  pub get_task : NamespacedName → W → Result (RestoreTask T)
  pub update_task : RestoreTask T → W → W × Result (RestoreTask T)
  pub create_task : RestoreTask T → W → W × Option Error
  pub get_es : NamespacedName → W → Result (Elasticsearch Q NA)
  pub patch_es : Elasticsearch Q NA → Elasticsearch Q NA → W → W × Option Error
  pub get_sts : NamespacedName → W → Result StatefulSet
