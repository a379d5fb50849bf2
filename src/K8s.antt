-- ===== src/K8s.antt =====
-- internal/k8s/client.go, `NewESNodeSet`, and the part of config/config.go that the program reads.
pub mod Laws
pub mod Client
use es_snapshot_restore.Base.{
  ℤ, ℕ, String, ◌<>◌, Bool, true, false, Option, none, some, List, [], ◌∷◌, map, ◌==◌,
  if◌then◌else◌,
}
use es_snapshot_restore.Api.{
  Toleration, VolumeClaim, Container, PodTemplate, Setting, NodeSet, Quantities,
}

-- `config.ES`, without the fields that only set up connections. `F` stands for `float64`. The map
-- `Labels` is no constant: it is part of the state below.
pub record EsConfig (F NA : Type 0) : Type 0 where
  pub restore_key : String
  pub restore_count : ℤ
  pub name : String
  pub namespace : String
  pub service_account : String
  pub plugins : List String
  pub limit_cpu : String
  pub limit_mem : String
  pub request_cpu : String
  pub request_mem : String
  pub storage_class : String
  pub annotations : List (String × String)
  pub node_affinity : NA
  pub tolerations : List (String × String)
  pub container_name : String
  pub topology_key : String
  pub disk_min_size : F
  pub random_len : ℤ
  pub concurrency : ℤ
  pub max_tasks : ℤ
  pub timeout : ℤ
  pub interval : ℤ

-- A Go map from texts to texts. `insert` is `m[k] = v`.
abbrev pub Labels : Type 0
Labels = List (String × String)

abbrev pub lookup {ℓ} : {V : Type ℓ} → String → List (String × V) → Option V
lookup k [] = none
lookup k ((j, v) ∷ m) = if j == k then some v else lookup k m

abbrev pub insert {ℓ} : {V : Type ℓ} → String → V → List (String × V) → List (String × V)
insert key new [] = (key, new) ∷ []
insert key new ((other, old) ∷ rest) =
    if other == key then (key, new) ∷ rest else (other, old) ∷ insert key new rest

abbrev pub join : String → List String → String
join sep [] = ""
join sep (x ∷ []) = x
join sep (x ∷ y ∷ ys) = x <> (sep <> join sep (y ∷ ys))

abbrev pub instance_label : String
instance_label = "app.kubernetes.io/instance"

unfoldable pub sts_name : String → String → String
sts_name es_name node_name = es_name <> ("-es-" <> node_name)

abbrev equal_toleration : String × String → Toleration
equal_toleration (k, v) = record { key = k; operator = "Equal"; value = v }

infixl 5 ◌>>=◌
abbrev ◌>>=◌ : {A B : Type 0} → Option A → (A → Option B) → Option B
none >>= k = none
some a >>= k = k a

module _ {F Q NA : Type 0} (q : Quantities Q) (c : EsConfig F NA) where
  open q use {must_parse, sts_name_label}

  -- The literal that `NewESNodeSet` returns, once the quantities are parsed.
  unfoldable pub node_set : String → Labels → Q → Q → Q → Q → Q → NodeSet Q NA
  node_set name labels limit_cpu limit_mem request_cpu request_mem storage = record {
    name = name;
    count = c.restore_count;
    config =
        ("node.attr." <> c.restore_key, Setting.text name)
        ∷ ("node.store.allow_mmap", Setting.flag false)
        ∷ ("node.roles", Setting.texts ("data" ∷ []))
        ∷ [];
    pod_template = record {
      name = name;
      labels = labels;
      annotations = c.annotations;
      node_affinity = c.node_affinity;
      topology_key = c.topology_key;
      anti_affinity_labels = (sts_name_label, sts_name c.name name) ∷ [];
      tolerations = map equal_toleration c.tolerations;
      service_account = c.service_account;
      init_containers =
          record {
            name = "install-plugins";
            command =
                "sh"
                ∷ "-c"
                ∷ ("bin/elasticsearch-plugin install --batch " <> join " " c.plugins)
                ∷ [];
            limits = [];
            requests = [];
          }
          ∷ [];
      containers =
          record {
            name = c.container_name;
            command = [];
            limits = ("cpu", limit_cpu) ∷ ("memory", limit_mem) ∷ [];
            requests = ("cpu", request_cpu) ∷ ("memory", request_mem) ∷ [];
          }
          ∷ [];
    };
    volume_claim_templates =
        record {
          name = "elasticsearch-data";
          labels = labels;
          annotations = c.annotations;
          access_modes = "ReadWriteOnce" ∷ [];
          storage = some storage;
          storage_class = some c.storage_class;
        }
        ∷ [];
  }

  -- `NewESNodeSet`, with the map `config.GlobalConfig.ES.Labels` before and after. The map is
  -- written first, so a panic of `MustParse` comes after the write. `none` is a panic: a write to
  -- the nil map, or a quantity that cannot be parsed.
  unfoldable pub new_es_node_set :
      String → String → Option Labels → Option Labels × Option (NodeSet Q NA)
  new_es_node_set name size none = (none, none)
  new_es_node_set name size (some old) =
      let labels = insert instance_label name old in
      (
        some labels,
        do
          limit_cpu ← must_parse c.limit_cpu
          limit_mem ← must_parse c.limit_mem
          request_cpu ← must_parse c.request_cpu
          request_mem ← must_parse c.request_mem
          storage ← must_parse size
          some (node_set name labels limit_cpu limit_mem request_cpu request_mem storage),
      )
