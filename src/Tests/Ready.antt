-- ===== src/Tests/Ready.antt =====
-- Calls of `Reconcile` for a task that is ready, and was restored before.
use es_snapshot_restore.Base.{pos, ℕ, ◌≡◌, refl, arith, none, some, [], ◌∷◌}
use es_snapshot_restore.Api.{NamespacedName, RestoreTask, VolumeClaim, NodeSet}
use es_snapshot_restore.K8s.{sts_name}
use es_snapshot_restore.Utils.Size.{
  to_gb, convert, scale, find_submatch, trim_space, is_number, is_gap, is_letter, is_space,
  to_upper,
}
use es_snapshot_restore.Controller.{Queued, State}
use es_snapshot_restore.Controller.Reconcile.{
  find_node, stored_gb, es_namespace, es_key, sts_key, queue_entry,
}
use es_snapshot_restore.Controller.Reconcile.Again.{IsReady, calls, calls-IsReady}
use es_snapshot_restore.Tests.Demo.{World, demo_env, demo_task, demo_world}

abbrev pub claim : VolumeClaim ℕ
claim = record {
  name = "elasticsearch-data";
  labels = [];
  annotations = [];
  access_modes = [];
  storage = some 10737418240;
  storage_class = none;
}

abbrev pub node : NodeSet ℕ (Unit {0})
node = record {
  name = "restore-n";
  count = pos 1;
  config = [];
  pod_template = record {
    name = "restore-n";
    labels = [];
    annotations = [];
    node_affinity = tt;
    topology_key = "zone";
    anti_affinity_labels = [];
    tolerations = [];
    service_account = "";
    init_containers = [];
    containers = [];
  };
  volume_claim_templates = claim ∷ [];
}

-- The task has a start, and its node set is there.
abbrev pub ready_task : RestoreTask ℕ
ready_task = record demo_task {
  status = record { reason = ""; start_at = some 3; finished_at = some 4; status = "done" };
}

abbrev pub ready_world : World
ready_world = record demo_world {
  task = ready_task;
  search = record { namespace = "elastic"; name = "es"; node_sets = node ∷ [] };
}

abbrev pub request : NamespacedName
request = record { namespace = "elastic"; name = "restore-1" }

pub is_ready : IsReady demo_env request ready_task ready_world
unfolding es_namespace es_key sts_key find_node stored_gb to_gb convert scale find_submatch
    trim_space is_number is_gap is_letter is_space to_upper sts_name
is_ready = record {
  found = refl;
  start = 3;
  started = refl;
  es = ready_world.search;
  found_es = refl;
  node = node;
  place = 0;
  found_node = refl;
  claim = claim;
  claims = [];
  has_claim = refl;
  wanted = 5;
  size = refl;
  large = refl;
  sts = ready_world.sts;
  found_sts = refl;
  unowned = refl;
  ready = refl;
}

abbrev pub ready_state : State World
ready_state = record { labels = some []; task_queue = []; world = ready_world }

abbrev pub entry : Queued
entry = record { namespace = ""; name = ""; task_id = "t-1"; index = "logs" ∷ [] }

calls-IsReady_example : calls demo_env 2 request ready_state ≡ record ready_state {
  task_queue = queue_entry demo_env ready_task ∷ queue_entry demo_env ready_task ∷ [];
}
calls-IsReady_example =
    calls-IsReady demo_env 2 request ready_task ready_state is_ready (omega arith)
