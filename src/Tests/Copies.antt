-- ===== src/Tests/Copies.antt =====
-- A list of two tasks in memory, copied deeply.
use es_snapshot_restore.Base.{
  ℕ, zero, suc, String, ◌<◌, refl, Option, none, some, List, [], ◌∷◌, arith,
}
use es_snapshot_restore.Api.Memory.{
  Foreign, TaskOf, ListOf, TaskAt, Cell, texts, meta, list_meta_of, time, conditions, tasks,
  of_task, of_list, Memory,
}
use es_snapshot_restore.Api.DeepCopy.{Copiers, deep_copy_list, deep_copy_task_object}
use es_snapshot_restore.Api.DeepCopy.Regions.{
  TaskView, ListView, ShowsTask, Items, TaskPtr, ListPtr,
}
use es_snapshot_restore.Api.DeepCopy.Faithful.{IsFaithful}
use es_snapshot_restore.Api.DeepCopy.Apart.{
  TaskObject, Apart, deep_copy_list-Apart, deep_copy_task_object-Apart,
}

abbrev texted : Foreign
texted = record { ObjectMeta = String; ListMeta = String; Time = String; Condition = String }

abbrev same_copies : Copiers texted
same_copies = record {
  copy_meta = λ n. n;
  copy_list_meta = λ l. l;
  copy_time = λ t. t;
  copy_condition = λ q. q;
}

same_copies-IsFaithful : IsFaithful same_copies
same_copies-IsFaithful = record {
  meta = λ n. refl;
  list_meta = λ l. refl;
  time = λ t. refl;
  condition = λ q. refl;
}

-- A task over any addresses or values, once with indices, a time and a condition and once without.
abbrev task_with : {N S P Q : Type 0} → N → Option S → Option P → Option Q → TaskOf N S P Q
task_with names index start ready = record {
  type_meta = record { kind = "RestoreTask"; api_version = "restore.restore.elastic.co/v1" };
  object_meta = names;
  spec = record {
    task_id = "id";
    node_name = "node";
    store_size = "1gb";
    snapshot = record { repository = "repo"; snapshot = "snap" };
    indices = index;
    elasticsearch_ref = record { namespace = "ns"; name = "es" };
  };
  status = record {
    reason = "";
    start_at = start;
    finished_at = none;
    status = "running";
    conditions = ready;
  };
}

abbrev list_with : {L I : Type 0} → L → I → ListOf L I
list_with names items = record {
  type_meta = record { kind = "RestoreTaskList"; api_version = "restore.restore.elastic.co/v1" };
  list_meta = names;
  items = some items;
}

abbrev full_task : TaskAt texted
full_task = task_with 6 (some 0) (some 1) (some 2)

abbrev cells : List (Option (Cell texted))
cells =
    some (texts ("logs-1" ∷ "logs-2" ∷ []))
    ∷ some (time "now")
    ∷ some (conditions ("ready" ∷ []))
    ∷ some (tasks (full_task ∷ task_with 8 none none none ∷ []))
    ∷ some (of_list (list_with 7 3))
    ∷ some (of_task full_task)
    ∷ some (meta "task")
    ∷ some (list_meta_of "list")
    ∷ some (meta "other")
    ∷ []

abbrev cell_at : List (Option (Cell texted)) → ℕ → Option (Cell texted)
cell_at [] n = none
cell_at (c ∷ cs) zero = c
cell_at (c ∷ cs) (suc n) = cell_at cs n

abbrev small : Memory texted
small = record { next = 9; cell = cell_at cells }

abbrev full_view : TaskView texted
full_view = task_with "task" (some ("logs-1" ∷ "logs-2" ∷ [])) (some "now") (some ("ready" ∷ []))

abbrev list_view : ListView texted
list_view = list_with "list" (full_view ∷ task_with "other" none none none ∷ [])

abbrev BelowNext : ℕ → Type 0
BelowNext p = p < 9

abbrev old_writes : List (ℕ × Cell texted)
old_writes = (0, texts []) ∷ (4, time "later") ∷ []

abbrev new_writes : List (ℕ × Cell texted)
new_writes = (9, texts []) ∷ (12, time "later") ∷ []

full_shown : ShowsTask small BelowNext full_task full_view
full_shown = record {
  type_meta = refl;
  object_meta = ("task", omega arith, refl, refl);
  spec = record {
    task_id = refl;
    node_name = refl;
    store_size = refl;
    snapshot = refl;
    elasticsearch_ref = refl;
    indices = ("logs-1" ∷ "logs-2" ∷ [], omega arith, refl, refl);
  };
  status = record {
    reason = refl;
    status = refl;
    start_at = ("now", omega arith, refl, refl);
    finished_at = tt;
    conditions = ("ready" ∷ [], omega arith, refl, refl);
  };
}

empty_shown :
    ShowsTask small BelowNext (task_with 8 none none none) (task_with "other" none none none)
empty_shown = record {
  type_meta = refl;
  object_meta = ("other", omega arith, refl, refl);
  spec = record {
    task_id = refl;
    node_name = refl;
    store_size = refl;
    snapshot = refl;
    elasticsearch_ref = refl;
    indices = tt;
  };
  status = record {
    reason = refl;
    status = refl;
    start_at = tt;
    finished_at = tt;
    conditions = tt;
  };
}

task_shown : TaskPtr small BelowNext (some 5) (some full_view)
task_shown = (full_task, omega arith, refl, full_shown)

both_shown :
    Items small BelowNext (some 3) (some (full_view ∷ task_with "other" none none none ∷ []))
both_shown = (
  full_task ∷ task_with 8 none none none ∷ [],
  omega arith,
  refl,
  (full_shown, (empty_shown, tt)),
)

list_shown : ListPtr small BelowNext (some 4) (some list_view)
list_shown = (
  list_with 7 3,
  omega arith,
  refl,
  record { type_meta = refl; list_meta = ("list", omega arith, refl, refl); items = both_shown },
)

deep_copy_list-Apart_example :
    Apart ListPtr ListPtr small BelowNext
      (some 4)
      (some list_view)
      (deep_copy_list same_copies (some 4) small)
      old_writes
      new_writes
deep_copy_list-Apart_example =
    deep_copy_list-Apart same_copies same_copies-IsFaithful small BelowNext (some 4)
      (some list_view) (λ p below. below) list_shown old_writes new_writes
      (omega arith, (omega arith, tt)) (omega arith, (omega arith, tt))

deep_copy_task_object-Apart_example :
    Apart TaskPtr TaskObject small BelowNext
      (some 5)
      (some full_view)
      (deep_copy_task_object same_copies (some 5) small)
      old_writes
      new_writes
deep_copy_task_object-Apart_example =
    deep_copy_task_object-Apart same_copies same_copies-IsFaithful small BelowNext (some 5)
      (some full_view) (λ p below. below) task_shown old_writes new_writes
      (omega arith, (omega arith, tt)) (omega arith, (omega arith, tt))
