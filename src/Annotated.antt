-- ===== src/Annotated.antt =====
-- internal/controller/controller.go and const.go: the earlier controller, which keeps the state of a
-- restore in the annotations of a stateful set. `restoreIndices` of this package only sleeps.
pub mod Claims
pub mod Workers
pub mod Events
use es_snapshot_restore.Base.{
  ℕ, String, ◌<>◌, Bool, true, false, not, ◌&&◌, ◌||◌, Option, none, some, List, [], ◌∷◌, ◌++◌,
  ◌==◌, eqb, ltb, if◌then◌else◌, length, Error, Result, ok, err, ignore_not_found,
}
use es_snapshot_restore.Api.{NamespacedName, StatefulSet}
use es_snapshot_restore.K8s.{lookup, insert}
use es_snapshot_restore.Utils.Size.{codes}
use es_snapshot_restore.Controller.{
  restore_status_pending, restore_status_running, restore_status_done, restore_status_failed,
}
use es_snapshot_restore.Controller.Reconcile.{has_es_owner}

abbrev pub annotation_restore_task_id : String
annotation_restore_task_id = "restore.elastic.co/task-id"

abbrev pub annotation_restore_task_status : String
annotation_restore_task_status = "restore.elastic.co/state"

-- `RestoreTask` of this package.
pub record SetTask : Type 0 where
  pub task_id : String
  pub namespace : String
  pub name : String

-- What is used of the client: `Patch` is given the original and the changed object.
pub record SetClient (W : Type 0) : Type 0 where
  pub get_sts : NamespacedName → W → Result StatefulSet
  pub patch_sts : StatefulSet → StatefulSet → W → W × Option Error

pub record SetState (W : Type 0) : Type 0 where
  pub task_queue : List SetTask
  pub world : W

pub data SetOutcome : Type 0 where
  returned : Option Error → SetOutcome
  panicked : SetOutcome
  waits : SetTask → SetOutcome

-- `ann[key]`, of a map that may be nil.
abbrev value_or_empty : Option String → String
value_or_empty none = ""
value_or_empty (some v) = v

unfoldable pub annotation : String → StatefulSet → String
annotation key sts = elim sts.annotations [ none ↦ "" | some m ↦ value_or_empty (lookup key m) ]

-- `ann[AnnotationRestoreTaskStatus] = status`, on the map or on a new one if it is nil.
unfoldable pub with_state : String → StatefulSet → StatefulSet
with_state status sts = record sts {
  annotations = some (elim sts.annotations [
    | none ↦ insert annotation_restore_task_status status []
    | some m ↦ insert annotation_restore_task_status status m
  ]);
}

-- `strings.Contains`.
abbrev begins : List ℕ → List ℕ → Bool
begins [] s = true
begins (a ∷ p) [] = false
begins (a ∷ p) (b ∷ s) = eqb a b && begins p s

abbrev contains : List ℕ → List ℕ → Bool
contains p [] = begins p []
contains p (c ∷ s) = begins p (c ∷ s) || contains p s

-- `match`, with the key of the configuration.
unfoldable pub match_set : String → StatefulSet → Bool
unfolding annotation
match_set key sts =
    if not (contains (codes (key <> "-")) (codes sts.name))
    then false
    else if annotation annotation_restore_task_id sts == ""
        || annotation annotation_restore_task_status sts == ""
    then false
    else has_es_owner sts.owner_references

-- `filterCreate`: `none` is an object of another type.
unfoldable pub filter_create : String → Option StatefulSet → Bool
unfolding match_set
filter_create key none = false
filter_create key (some sts) = match_set key sts

-- `filterUpdate`, for two stateful sets.
unfoldable pub filter_update : String → StatefulSet → StatefulSet → Bool
unfolding match_set
filter_update key old new = elim old.annotations [
  | none ↦ false
  | some _ ↦ elim new.annotations [
    | none ↦ false
    | some _ ↦
        if annotation annotation_restore_task_id old == annotation annotation_restore_task_id new
          && annotation annotation_restore_task_status old
            == annotation annotation_restore_task_status new
        then false
        else match_set key new
  ]
]

module _ {W : Type 0} (k : SetClient W) where
  open k use {get_sts, patch_sts}

  -- The send, into a queue with room for 100 entries.
  unfoldable pub send_task : SetTask → SetState W → SetOutcome × SetState W
  send_task t s =
      if ltb (length s.task_queue) 100
      then (returned none, record s { task_queue = s.task_queue ++ (t ∷ []) })
      else (waits t, s)

  -- After the patch that marks the set as running.
  unfoldable pub patched_set : SetTask → SetState W → W × Option Error → SetOutcome × SetState W
  unfolding send_task
  patched_set t s (w, some e) = (returned (some e), record s { world = w })
  patched_set t s (w, none) = send_task t (record s { world = w })

  unfoldable pub claim_set : NamespacedName → StatefulSet → SetState W → SetOutcome × SetState W
  unfolding patched_set annotation
  claim_set req sts s =
      if not (annotation annotation_restore_task_status sts == restore_status_pending)
      then (returned none, s)
      else patched_set
          (record {
            task_id = annotation annotation_restore_task_id sts;
            namespace = req.namespace;
            name = req.name;
          })
          s (patch_sts sts (with_state restore_status_running sts) s.world)

  -- The tests of `Reconcile` before it looks at the annotations.
  unfoldable pub reconcile_set : NamespacedName → SetState W → SetOutcome × SetState W
  unfolding claim_set
  reconcile_set req s = elim (get_sts req s.world) [
    | err e ↦ (returned (ignore_not_found e), s)
    | ok sts ↦ elim sts.replicas [
      | none ↦ (panicked, s)
      | some n ↦ if eqb sts.ready_replicas n then claim_set req sts s else (returned none, s)
    ]
  ]

  -- `updateTaskStatus`: nothing is written if the set is now of another task.
  unfoldable pub update_set_status : SetTask → String → W → W
  unfolding annotation
  update_set_status t status w =
      elim (get_sts (record { namespace = t.namespace; name = t.name }) w) [
        | err e ↦ w
        | ok sts ↦
            if not (annotation annotation_restore_task_id sts == t.task_id)
            then w
            else (patch_sts sts (with_state status sts) w).0
      ]

  -- What the worker does with an entry, by what `restoreIndices` returns.
  unfoldable pub work_set : Option Error → SetTask → W → W
  unfolding update_set_status
  work_set none t w = update_set_status t restore_status_done w
  work_set (some e) t w = update_set_status t restore_status_failed w
