-- ===== src/Tests/Sets.antt =====
-- The properties of the earlier controller on a cluster with one stateful set.
use es_snapshot_restore.Base.{
  String, ◌≡◌, refl, arith, none, some, [], ◌∷◌, ◌==◌, if◌then◌else◌, ok, err, not_found, ◌⊎◌,
  count, Bool,
}
use es_snapshot_restore.Api.{NamespacedName, StatefulSet}
use es_snapshot_restore.Annotated.{
  SetTask, SetClient, SetState, returned, annotation, with_state, annotation_restore_task_id,
  annotation_restore_task_status, reconcile_set, work_set, claim_set, patched_set, send_task,
  update_set_status,
}
use es_snapshot_restore.Annotated.Workers.{
  wired_workers, Workers, new_workers, restore_set, start, call, receive, work, SetReach, OwnReach,
  here, next,
}
use es_snapshot_restore.Annotated.Workers.Drain.{SetReach-drains}
use es_snapshot_restore.Annotated.Claims.{Claims, task_of, reconcile_set-Claims}
use es_snapshot_restore.Annotated.Workers.Bounds.{IsBounded, IsConserved, SetReach-safe}

-- The world is the one set.
abbrev client : SetClient StatefulSet
client = record {
  get_sts = λ k w. if k.name == w.name then ok w else err not_found;
  patch_sts = λ old new w. (new, none);
}

abbrev marked_by : String → StatefulSet
marked_by status = record {
  name = "es-es-restore-n";
  annotations =
      some ((annotation_restore_task_id, "t-1") ∷ (annotation_restore_task_status, status) ∷ []);
  owner_references =
      record { kind = "Elasticsearch"; api_version = "elasticsearch.k8s.elastic.co/v1" } ∷ [];
  replicas = some 1;
  ready_replicas = 1;
}

abbrev key : NamespacedName
key = record { namespace = "elastic"; name = "es-es-restore-n" }

abbrev before : SetState StatefulSet
before = record { task_queue = []; world = marked_by "pending" }

abbrev after : SetState StatefulSet
after = record {
  task_queue = record { task_id = "t-1"; namespace = "elastic"; name = "es-es-restore-n" } ∷ [];
  world = marked_by "running";
}

reconcile_set-Claims_example :
    ((reconcile_set client key before).1.task_queue ≡ [])
    ⊎ Claims client key before (reconcile_set client key before).1
reconcile_set-Claims_example = reconcile_set-Claims client key before

-- One loop is started; a set is claimed, and its entry is worked on.
abbrev finished : Workers StatefulSet
finished = record {
  loops = 1;
  hooked = 0;
  state = record { task_queue = []; world = marked_by "done" };
  sending = [];
  held = [];
  done = after.task_queue;
  claimed = after.task_queue;
}

called : reconcile_set client key before ≡ (returned none, after)
unfolding reconcile_set claim_set patched_set send_task annotation with_state
called = refl

finished-SetReach : SetReach client (new_workers (marked_by "pending")) finished
unfolding new_workers work_set update_set_status annotation with_state restore_set
finished-SetReach =
    next
      (next (next (next here (start refl)) (call key (returned none) after called refl))
        (receive (task_of client key (marked_by "pending")) [] (omega arith) refl refl))
      (work [] (task_of client key (marked_by "pending")) [] refl refl)

SetReach-safe_example : IsBounded client finished × IsConserved client finished
SetReach-safe_example = SetReach-safe client (marked_by "pending") finished-SetReach

-- One loop is started by the constructor; a set is claimed.
abbrev claimed : Workers StatefulSet
claimed = record {
  loops = 1;
  hooked = 0;
  state = after;
  sending = [];
  held = [];
  done = [];
  claimed = after.task_queue;
}

claimed-SetReach : SetReach client (wired_workers (marked_by "pending")) claimed
unfolding wired_workers new_workers annotation with_state
claimed-SetReach = next here (call key (returned none) after called refl)

SetReach-drains_example :
    (p : Workers StatefulSet) × OwnReach client claimed p
    × (p.claimed ≡ after.task_queue)
    × ((f : SetTask → Bool) → count f p.done ≡ count f after.task_queue)
SetReach-drains_example = SetReach-drains client (marked_by "pending") claimed claimed-SetReach
