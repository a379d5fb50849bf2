-- ===== src/Tests/Demo.antt =====
-- A small cluster, database and search engine on which the properties are applied. Numbers stand
-- for floats, times and quantities.
use Prim.Native.Nat.{◌/◌}
use Prim.Native.Char.{code}
use mathlib.Core.List.{foldl}
use es_snapshot_restore.Base.{
  pos, ℕ, suc, ◌+◌, ◌-◌, ◌*◌, String, Bool, false, Option, none, some, List, [], ◌∷◌, ◌++◌, map,
  ◌==◌, eqb, ltb, if◌then◌else◌, Error, not_found, external, ok, err, any,
}
use es_snapshot_restore.Api.{
  NamespacedName, RestoreTask, Elasticsearch, StatefulSet, Quantities, Cluster,
}
use es_snapshot_restore.Db.{EsIndex, EsSnapshot, Task, Changes, Database}
use es_snapshot_restore.Db.Time.{TimeLib}
use es_snapshot_restore.Elastic.{Search}
use es_snapshot_restore.K8s.{EsConfig}
use es_snapshot_restore.Utils.Size.{Float64}
use es_snapshot_restore.Controller.Reconcile.{Env}

abbrev pub demo_float : Float64
demo_float = record {
  Float = ℕ;
  parse_float = λ s. ok (foldl (λ n c. 10 * n + (c - 48)) 0 s);
  of_nat = λ n. n;
  add = λ a b. a + b;
  mul = λ a b. a * b;
  div = λ a b. a / b;
  lt = ltb;
  format_f = λ n. if eqb n 0 then "0.000000" else "10.000000";
}

-- Refuses a text that begins with a percent sign, and reads the digits of any other.
abbrev pub demo_must_parse : String → Option ℕ
demo_must_parse String.[] = none
demo_must_parse (String.◌∷◌ c s) =
    if eqb (code c) 37 then none else some (1073741824 * (code c - 48))

abbrev pub demo_quantities : Quantities ℕ
demo_quantities = record {
  sts_name_label = "elasticsearch.k8s.elastic.co/statefulset-name";
  must_parse = demo_must_parse;
  value = λ n. n;
}

pub record World : Type 0 where
  pub clock : ℕ
  pub task : RestoreTask ℕ
  pub search : Elasticsearch ℕ (Unit {0})
  pub sts : StatefulSet
  pub rows : List (Task ℕ)
  pub indices : List (EsIndex ℕ)
  pub snapshots : List (EsSnapshot ℕ)

abbrev same_key : NamespacedName → String → String → Bool
same_key k namespace name = if k.namespace == namespace then k.name == name else false

-- A task that is created replaces the one there, and the name "restore-busy" is refused.
abbrev pub demo_cluster : Cluster ℕ (Unit {0}) ℕ World
demo_cluster = record {
  now = λ w. w.clock;
  get_task = λ k w.
      if k.name == ""
      then err not_found
      else if same_key k w.task.namespace w.task.name
      then ok w.task
      else err not_found;
  update_task = λ t w. (record w { task = t; clock = suc w.clock }, ok t);
  create_task = λ t w.
      if t.spec.task_id == "t-busy"
      then (w, some (external "busy"))
      else (record w { task = t }, none);
  get_es = λ k w. ok (w.search);
  patch_es = λ old es w. (record w { search = es }, none);
  get_sts = λ k w. if k.name == w.sts.name then ok (w.sts) else err not_found;
}

abbrev keep : {A : Type 0} → Option A → A → A
keep none old = old
keep (some a) old = a

abbrev changed : List (Task ℕ) → Changes ℕ → Task ℕ → Task ℕ
changed rows c t =
    if any (λ u. eqb u.id t.id) rows then record t { status = keep c.status t.status } else t

-- A row whose task is "t-full" is refused.
abbrev created : List (Task ℕ) → World → World × Option Error
created [] w = (w, none)
created (t ∷ ts) w =
    if t.task_id == "t-full"
    then (w, some (external "full"))
    else (record w { rows = w.rows ++ (t ∷ ts) }, none)

abbrev pub demo_database : Database ℕ World
demo_database = record {
  find_tasks = λ st w. ok (w.rows);
  find_indices = λ st w. ok (w.indices);
  find_snapshots = λ st w. ok (w.snapshots);
  create_tasks = created;
  create_indices = λ clause is w. (record w { indices = w.indices ++ is }, none);
  create_snapshots = λ clause ss w. (record w { snapshots = w.snapshots ++ ss }, none);
  update_tasks = λ rows c w. (record w { rows = map (changed rows c) w.rows }, none);
}

abbrev pub demo_search : Search World
demo_search = record {
  cat_indices =
      λ r w. ok (ok (record { name = "logs"; create_at = "2024-01-02"; store_size = "10gb" } ∷ []));
  cat_repositories = λ r w. ok (ok (record { id = "s3" } ∷ record { id = "nfs" } ∷ []));
  cat_snapshots =
      λ r w. ok (ok (record { id = "snap"; repository = "s3"; status = "SUCCESS" } ∷ []));
  snapshot_get = λ r w.
      if r.repository == "s3"
      then ok (
          ok (
            record {
              snapshot = "snap";
              repository = "s3";
              state = "SUCCESS";
              start_time = "2024-01-02";
              indices = "logs" ∷ [];
            }
            ∷ []))
      else err (external "unreachable");
  snapshot_restore = λ r w. (w, ok (record { status_code = 200; body = "" }));
  cat_recovery = λ r w. ok (
      ok (
        record {
          index = "logs";
          shard = "0";
          stage = "done";
          target_node = "n";
          recovered_percent = if ltb 5 w.clock then "100%" else "40%";
        }
        ∷ []));
}

-- Reads the layout of a day alone, and that of a day with a time of day.
abbrev pub demo_times : TimeLib ℕ
demo_times = record {
  parse_in_location = λ layout s.
      if layout == "2006-01-02 15:04:05"
      then (if s == "2024-01-02 03:04:05" then ok 1704164645 else err (external "layout"))
      else if s == "2024-01-02T03:04:05Z"
      then ok 1704164645
      else err (external "layout");
  zero_time = 0;
  is_zero = λ t. eqb t 0;
}

abbrev pub demo_config : EsConfig ℕ (Unit {0})
demo_config = record {
  restore_key = "restore";
  restore_count = pos 1;
  name = "es";
  namespace = "elastic";
  service_account = "es";
  plugins = "repository-s3" ∷ [];
  limit_cpu = "2";
  limit_mem = "4Gi";
  request_cpu = "1";
  request_mem = "2Gi";
  storage_class = "ssd";
  annotations = [];
  node_affinity = tt;
  tolerations = ("role", "restore") ∷ [];
  container_name = "elasticsearch";
  topology_key = "zone";
  disk_min_size = 10;
  random_len = pos 8;
  concurrency = pos 2;
  max_tasks = pos 3;
  timeout = pos 60;
  interval = pos 5;
}

abbrev pub demo_env : Env ℕ (Unit {0}) ℕ World
demo_env = record {
  float = demo_float;
  format_v = λ n. if eqb n 0 then "0" else "5";
  quantities = demo_quantities;
  cluster = demo_cluster;
  config = demo_config;
}

abbrev pub demo_row : Task ℕ
demo_row = record {
  id = 1;
  task_id = "t-1";
  index = "logs";
  repository = "s3";
  snapshot = "snap";
  status = "RUNNING";
  current_stage = none;
  payload = none;
  error_message = none;
  started_at = none;
  finished_at = none;
}

abbrev pub demo_task : RestoreTask ℕ
demo_task = record {
  namespace = "elastic";
  name = "restore-1";
  spec = record {
    task_id = "t-1";
    node_name = "restore-n";
    store_size = "5gb";
    snapshot = record { repository = "s3"; snapshot = "snap" };
    indices = "logs" ∷ [];
    elasticsearch_ref = record { namespace = ""; name = "es" };
  };
  status = record { reason = ""; start_at = none; finished_at = none; status = "" };
}

abbrev pub demo_world : World
demo_world = record {
  clock = 4;
  task = demo_task;
  search = record { namespace = "elastic"; name = "es"; node_sets = [] };
  sts = record {
    name = "es-es-restore-n";
    annotations = none;
    owner_references = [];
    replicas = some 1;
    ready_replicas = 1;
  };
  rows = demo_row ∷ [];
  indices =
      record { name = "logs"; index_create_at = record { time = 7 }; store_size = "10gb" }
      ∷ record { name = "junk"; index_create_at = record { time = 8 }; store_size = "?" }
      ∷ [];
  snapshots =
      record {
        snapshot = "snap";
        repository = "s3";
        state = "SUCCESS";
        start_time = record { time = 9 };
        indices = "logs" ∷ [];
      }
      ∷ [];
}
