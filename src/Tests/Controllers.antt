-- ===== src/Tests/Controllers.antt =====
-- The properties of the controller at concrete inputs.
use es_snapshot_restore.Base.{
  pos, ℕ, ◌≡◌, ◌⊎◌, refl, arith, none, some, List, [], ◌∷◌, ok, if◌then◌else◌, false, ap,
}
use es_snapshot_restore.Controller.Reconcile.{
  es_key, es_namespace, go, stop, written, find_node, stored_gb, ensure_node, reconcile,
}
use es_snapshot_restore.Controller.Reconcile.Nodes.{
  has_name, RejectsPercent, Distinct, ensure_node_existing, ensure_node_missing,
}
use es_snapshot_restore.Controller.Reconcile.Overwrites.{ensure_node-overwrites}
use es_snapshot_restore.Tests.Demo.{
  demo_must_parse, World, demo_quantities, demo_cluster, demo_float, demo_config, demo_env,
  demo_row, demo_task, demo_world,
}
use es_snapshot_restore.Api.{NodeSet, Elasticsearch, RestoreTask, VolumeClaim}
use es_snapshot_restore.K8s.{new_es_node_set, node_set, Labels}
use es_snapshot_restore.Utils.Size.{
  codes, to_gb, convert, scale, find_submatch, trim_space, is_number, is_gap, is_letter, is_space,
  to_upper,
}
use es_snapshot_restore.Controller.{Queued, State, returned, panicked}
use es_snapshot_restore.Controller.Reconcile.Stages.{Queues, UpdateKeepsSpec}
use es_snapshot_restore.Controller.Reconcile.Queueing.{reconcile-queue}
use es_snapshot_restore.Controller.Restore.{Wake, tick, time_out}
use Prim.Native.String.append

abbrev state : State World
state = record { labels = some []; task_queue = []; world = demo_world }

updates : UpdateKeepsSpec demo_env state
updates t t' w w' h = ground arith

reconcile-queue_example :
    let (o, s) = reconcile demo_env (record { namespace = "elastic"; name = "restore-1" }) state in
    (s.task_queue ≡ [])
    ⊎ ((t : RestoreTask ℕ) × (ok demo_task ≡ ok t)
        × (o ≡ returned 0 none)
        × Queues demo_env state t s)
reconcile-queue_example =
    reconcile-queue demo_env state updates (record { namespace = "elastic"; name = "restore-1" })

abbrev entry : Queued
entry = record { namespace = ""; name = ""; task_id = "t-1"; index = "logs" ∷ [] }

-- Two ticks with the index at 40 percent, then one with the index recovered.
abbrev ticks : List (Wake World)
ticks = tick (λ w. w) ∷ tick (λ w. w) ∷ tick (λ w. record w { clock = 9 }) ∷ []

abbrev restored_world : World
restored_world = record demo_world { clock = 9; rows = record demo_row { status = "SUCCESS" } ∷ [] }

abbrev late : List (Wake World)
late = tick (λ w. w) ∷ time_out (λ w. w) ∷ []

abbrev claim : VolumeClaim ℕ
claim = record {
  name = "elasticsearch-data";
  labels = [];
  annotations = [];
  access_modes = [];
  storage = some 1073741824;
  storage_class = none;
}

abbrev node : NodeSet ℕ (Unit {0})
node = record {
  name = "restore-n";
  count = pos 1;
  config = [];
  pod_template = record {
    name = "restore-n";
    labels = [];
    annotations = [];
    node_affinity = tt;
    topology_key = "zone";
    anti_affinity_labels = [];
    tolerations = [];
    service_account = "";
    init_containers = [];
    containers = [];
  };
  volume_claim_templates = claim ∷ [];
}

abbrev with_node : Elasticsearch ℕ (Unit {0})
with_node = record { namespace = "elastic"; name = "es"; node_sets = node ∷ [] }

rejects : RejectsPercent demo_env demo_task state
rejects rest = ap demo_must_parse (append.cons _ "" rest)

found : find_node "restore-n" 0 none (node ∷ []) ≡ some (node, 0)
unfolding find_node
found = refl

size : to_gb demo_float (codes "5gb") ≡ ok 5
unfolding to_gb convert scale find_submatch trim_space is_number is_gap is_letter is_space to_upper
size = refl

ensure_node_existing_example :
    ensure_node demo_env demo_task with_node state
    ≡ ((if demo_float.lt (stored_gb demo_env claim) 5 then stop panicked else go tt), state)
ensure_node_existing_example =
    ensure_node_existing demo_env demo_task state rejects with_node node 0 claim [] 5 found refl
      size

missing : find_node {Q = ℕ} {NA = Unit {0}} "restore-n" 0 none [] ≡ none
unfolding find_node
missing = refl

abbrev new_labels : Labels
new_labels = ("app.kubernetes.io/instance", "restore-n") ∷ []

abbrev new_node : NodeSet ℕ (Unit {0})
new_node =
    node_set demo_quantities demo_config "restore-n" new_labels 2147483648 4294967296 1073741824
      2147483648 5368709120

makes :
    new_es_node_set demo_quantities demo_config "restore-n" "5gb" (some [])
    ≡ (some new_labels, some new_node)
unfolding new_es_node_set
makes = refl

ensure_node_missing_example :
    (ensure_node demo_env demo_task demo_world.search state
      ≡ written
          (record state { labels = some new_labels })
          (demo_cluster.patch_es demo_world.search
            (record { namespace = "elastic"; name = "es"; node_sets = new_node ∷ [] })
            demo_world))
    × Distinct (new_node ∷ [])
    × (new_node.name ≡ "restore-n")
ensure_node_missing_example =
    ensure_node_missing demo_env demo_task state demo_world.search missing tt makes

-- A node set of another name was added after the object was read.
abbrev busy : State World
busy = record state {
  world = record demo_world {
    search = record {
      namespace = "elastic";
      name = "es";
      node_sets = record node { name = "restore-m" } ∷ [];
    };
  };
}

abbrev overwritten : State World
overwritten = record busy {
  labels = some new_labels;
  world = record demo_world {
    search = record { namespace = "elastic"; name = "es"; node_sets = new_node ∷ [] };
  };
}

goes_on : ensure_node demo_env demo_task demo_world.search busy ≡ (go tt, overwritten)
goes_on = (ensure_node_missing demo_env demo_task busy demo_world.search missing tt makes).0

ensure_node-overwrites_example :
    (left : Elasticsearch ℕ (Unit {0})) × (demo_cluster.get_es
        (es_key demo_env demo_task)
        overwritten.world
      ≡ ok left)
    × (has_name "restore-m" left.node_sets ≡ false)
unfolding es_key es_namespace
ensure_node-overwrites_example =
    ensure_node-overwrites demo_env demo_task demo_world.search busy overwritten
      (λ old new stored w w' found longer patched. (new, ground arith, refl)) busy.world.search
      "restore-m" refl refl missing goes_on refl refl
