-- ===== src/Api/DeepCopy.antt =====
-- internal/controller/api/v1/zz_generated.deepcopy.go (the same file twice more in the repository), over
-- the memory of Api/Memory. `DeepCopyInto` yields what it leaves in `*out`, which its caller stores.
pub mod Regions
pub mod Copied
pub mod Faithful
pub mod Apart
use es_snapshot_restore.Base.{ℕ, String, ◌≡◌, Option, none, some, List, [], ◌∷◌, map}
use es_snapshot_restore.Api.{SnapshotRef, ElasticsearchRef}
use es_snapshot_restore.Api.Memory.{
  Foreign, SpecOf, StatusOf, TaskOf, ListOf, TaskAt, Cell, texts, meta, list_meta_of, time,
  conditions, tasks, of_snapshot, of_elasticsearch, of_spec, of_status, of_task, of_list, Memory,
  Cmd, pure, ◌>>=◌, alloc, load, store,
}

-- The deep copies of the other package, by what the copy holds.
pub record Copiers (F : Foreign) : Type 0 where
  pub copy_meta : F.ObjectMeta → F.ObjectMeta
  pub copy_list_meta : F.ListMeta → F.ListMeta
  pub copy_time : F.Time → F.Time
  pub copy_condition : F.Condition → F.Condition

module _ {F : Foreign} where
  abbrev pub pick_texts : Cell F → Option (List String)
  pick_texts (texts xs) = some xs
  pick_texts _ = none

  abbrev pub pick_meta : Cell F → Option F.ObjectMeta
  pick_meta (meta n) = some n
  pick_meta _ = none

  abbrev pub pick_list_meta : Cell F → Option F.ListMeta
  pick_list_meta (list_meta_of l) = some l
  pick_list_meta _ = none

  abbrev pub pick_time : Cell F → Option F.Time
  pick_time (time t) = some t
  pick_time _ = none

  abbrev pub pick_conditions : Cell F → Option (List F.Condition)
  pick_conditions (conditions cs) = some cs
  pick_conditions _ = none

  abbrev pub pick_tasks : Cell F → Option (List (TaskAt F))
  pick_tasks (tasks ts) = some ts
  pick_tasks _ = none

  abbrev pub pick_snapshot : Cell F → Option SnapshotRef
  pick_snapshot (of_snapshot s) = some s
  pick_snapshot _ = none

  abbrev pub pick_elasticsearch : Cell F → Option ElasticsearchRef
  pick_elasticsearch (of_elasticsearch e) = some e
  pick_elasticsearch _ = none

  abbrev pub pick_spec : Cell F → Option (SpecOf ℕ)
  pick_spec (of_spec s) = some s
  pick_spec _ = none

  abbrev pub pick_status : Cell F → Option (StatusOf ℕ ℕ)
  pick_status (of_status s) = some s
  pick_status _ = none

  abbrev pub pick_task : Cell F → Option (TaskAt F)
  pick_task (of_task t) = some t
  pick_task _ = none

  abbrev pub pick_list : Cell F → Option (ListOf ℕ ℕ)
  pick_list (of_list l) = some l
  pick_list _ = none

  -- `if in.X != nil { ... }`, and `if in == nil { return nil }`.
  abbrev pub unless_nil : (ℕ → Cmd F ℕ) → Option ℕ → Cmd F (Option ℕ)
  unless_nil copy none = pure none
  unless_nil copy (some p) = do q ← copy p; pure (some q)

  -- `out := new(T)` and the write `*out = *in` that `into` begins with, then the rest of `into`. For a
  -- slice it is `make` and the loop that writes every element; nothing reads the array in between.
  abbrev pub copy_cell :
      {A : Type 0} → (Cell F → Option A) → (A → Cmd F A) → (A → Cell F) → ℕ → Cmd F ℕ
  copy_cell pick into cell p = do
    a ← load pick p
    q ← alloc (cell a)
    b ← into a
    _ ← store q (cell b)
    pure q

  -- `make` and `copy`
  unfoldable pub copy_texts : ℕ → Cmd F ℕ
  copy_texts = copy_cell pick_texts pure texts

  unfoldable pub spec_into : SpecOf ℕ → Cmd F (SpecOf ℕ)
  unfolding copy_texts
  spec_into s = do indices ← unless_nil copy_texts s.indices; pure (record s { indices = indices })

  unfoldable pub deep_copy_elasticsearch : Option ℕ → Cmd F (Option ℕ)
  deep_copy_elasticsearch = unless_nil (copy_cell pick_elasticsearch pure of_elasticsearch)

  unfoldable pub deep_copy_snapshot : Option ℕ → Cmd F (Option ℕ)
  deep_copy_snapshot = unless_nil (copy_cell pick_snapshot pure of_snapshot)

  unfoldable pub deep_copy_spec : Option ℕ → Cmd F (Option ℕ)
  deep_copy_spec = unless_nil (copy_cell pick_spec spec_into of_spec)

-- `runtime.Object`: an interface that is not nil holds a pointer and its type.
pub data Object : Type 0 where
  task_object list_object : ℕ → Object

-- The interface is nil just if the pointer is.
abbrev pub as_object : (ℕ → Object) → Option ℕ → Option Object
as_object type none = none
as_object type (some p) = some (type p)

module _ {F : Foreign} (c : Copiers F) where
  unfoldable pub copy_time_at : ℕ → Cmd F ℕ
  copy_time_at = copy_cell pick_time (λ t. pure (c.copy_time t)) time

  unfoldable pub copy_conditions : ℕ → Cmd F ℕ
  copy_conditions = copy_cell pick_conditions (λ cs. pure (map c.copy_condition cs)) conditions

  unfoldable pub status_into : StatusOf ℕ ℕ → Cmd F (StatusOf ℕ ℕ)
  status_into s = do
    start_at ← unless_nil copy_time_at s.start_at
    finished_at ← unless_nil copy_time_at s.finished_at
    cs ← unless_nil copy_conditions s.conditions
    pure (record s { start_at = start_at; finished_at = finished_at; conditions = cs })

  unfoldable pub deep_copy_status : Option ℕ → Cmd F (Option ℕ)
  deep_copy_status = unless_nil (copy_cell pick_status status_into of_status)

  -- `DeepCopyInto` of the metadata, into the new object.
  unfoldable pub copy_meta_at : ℕ → Cmd F ℕ
  copy_meta_at = copy_cell pick_meta (λ n. pure (c.copy_meta n)) meta

  unfoldable pub copy_list_meta_at : ℕ → Cmd F ℕ
  copy_list_meta_at = copy_cell pick_list_meta (λ l. pure (c.copy_list_meta l)) list_meta_of

  unfoldable pub task_into : TaskAt F → Cmd F (TaskAt F)
  unfolding status_into copy_meta_at
  task_into t = do
    object_meta ← copy_meta_at t.object_meta
    spec ← spec_into t.spec
    status ← status_into t.status
    pure (record t { object_meta = object_meta; spec = spec; status = status })

  unfoldable pub deep_copy_task : Option ℕ → Cmd F (Option ℕ)
  deep_copy_task = unless_nil (copy_cell pick_task task_into of_task)

  -- The loop over the items.
  unfoldable pub tasks_into : List (TaskAt F) → Cmd F (List (TaskAt F))
  tasks_into [] = pure []
  tasks_into (t ∷ ts) = do u ← task_into t; us ← tasks_into ts; pure (u ∷ us)

  unfoldable pub list_into : ListOf ℕ ℕ → Cmd F (ListOf ℕ ℕ)
  unfolding copy_list_meta_at
  list_into l = do
    list_meta ← copy_list_meta_at l.list_meta
    items ← unless_nil (copy_cell pick_tasks tasks_into tasks) l.items
    pure (record l { list_meta = list_meta; items = items })

  unfoldable pub deep_copy_list : Option ℕ → Cmd F (Option ℕ)
  deep_copy_list = unless_nil (copy_cell pick_list list_into of_list)

  unfoldable pub deep_copy_task_object : Option ℕ → Cmd F (Option Object)
  unfolding deep_copy_task
  deep_copy_task_object p = do q ← deep_copy_task p; pure (as_object task_object q)

  unfoldable pub deep_copy_list_object : Option ℕ → Cmd F (Option Object)
  unfolding deep_copy_list
  deep_copy_list_object p = do q ← deep_copy_list p; pure (as_object list_object q)
