-- ===== src/Api/DeepCopy/Regions.antt =====
-- What a pointer stands for, and the addresses that it does so by.
use es_snapshot_restore.Base.{ℕ, String, ◌≡◌, ◌∙◌, Option, none, some, List, [], ◌∷◌}
use es_snapshot_restore.Api.Memory.{
  Foreign, SpecOf, StatusOf, TaskOf, ListOf, TaskAt, Cell, texts, meta, list_meta_of, time,
  conditions, tasks, of_task, of_list, Memory,
}

abbrev pub SpecView : Type 0
SpecView = SpecOf (List String)

module _ (F : Foreign) where
  abbrev pub StatusView : Type 0
  StatusView = StatusOf F.Time (List F.Condition)

  abbrev pub TaskView : Type 0
  TaskView = TaskOf F.ObjectMeta (List String) F.Time (List F.Condition)

  abbrev pub ListView : Type 0
  ListView = ListOf F.ListMeta (List TaskView)

  -- In a memory, by addresses of a set: what lies in memory stands for a value.
  abbrev pub Rel : Type 0 → Type 0 → Type 1
  Rel A V = Memory F → (ℕ → Type 0) → A → V → Type 0

module _ {F : Foreign} where
  -- It holds no address.
  abbrev pub Same : {V : Type 0} → Rel F V V
  Same m R a v = a ≡ v

  -- An address of the set that holds what stands for the value.
  abbrev pub At : {A V : Type 0} → Rel F A V → (A → Cell F) → Rel F ℕ V
  At {A} I cell m R p v = (a : A) × R p × (m.cell p ≡ some (cell a)) × I m R a v

  abbrev pub Nilable : {V : Type 0} → Rel F ℕ V → Rel F (Option ℕ) (Option V)
  Nilable I m R none none = Unit {0}
  Nilable I m R (some p) (some v) = I m R p v
  Nilable I m R none (some v) = ⊥
  Nilable I m R (some p) none = ⊥

  abbrev pub Pointwise : {A V : Type 0} → Rel F A V → Rel F (List A) (List V)
  Pointwise I m R [] [] = Unit {0}
  Pointwise I m R (a ∷ xs) (v ∷ vs) = I m R a v × Pointwise I m R xs vs
  Pointwise I m R [] (v ∷ vs) = ⊥
  Pointwise I m R (a ∷ xs) [] = ⊥

  abbrev pub Indices : Rel F (Option ℕ) (Option (List String))
  Indices = Nilable (At Same texts)

  abbrev pub TimeAt : Rel F (Option ℕ) (Option F.Time)
  TimeAt = Nilable (At Same time)

  abbrev pub Conditions : Rel F (Option ℕ) (Option (List F.Condition))
  Conditions = Nilable (At Same conditions)

  pub record ShowsSpec (m : Memory F) (R : ℕ → Type 0) (s : SpecOf ℕ) (v : SpecView) : Type 0 where
    pub task_id : s.task_id ≡ v.task_id
    pub node_name : s.node_name ≡ v.node_name
    pub store_size : s.store_size ≡ v.store_size
    pub snapshot : s.snapshot ≡ v.snapshot
    pub elasticsearch_ref : s.elasticsearch_ref ≡ v.elasticsearch_ref
    pub indices : Indices m R s.indices v.indices

  pub record ShowsStatus (m : Memory F) (R : ℕ → Type 0) (s : StatusOf ℕ ℕ) (v : StatusView F)
      : Type 0 where
    pub reason : s.reason ≡ v.reason
    pub status : s.status ≡ v.status
    pub start_at : TimeAt m R s.start_at v.start_at
    pub finished_at : TimeAt m R s.finished_at v.finished_at
    pub conditions : Conditions m R s.conditions v.conditions

  pub record ShowsTask (m : Memory F) (R : ℕ → Type 0) (t : TaskAt F) (v : TaskView F)
      : Type 0 where
    pub type_meta : t.type_meta ≡ v.type_meta
    pub object_meta : At Same meta m R t.object_meta v.object_meta
    pub spec : ShowsSpec m R t.spec v.spec
    pub status : ShowsStatus m R t.status v.status

  abbrev pub Items : Rel F (Option ℕ) (Option (List (TaskView F)))
  Items = Nilable (At (Pointwise ShowsTask) tasks)

  pub record ShowsList (m : Memory F) (R : ℕ → Type 0) (l : ListOf ℕ ℕ) (v : ListView F)
      : Type 0 where
    pub type_meta : l.type_meta ≡ v.type_meta
    pub list_meta : At Same list_meta_of m R l.list_meta v.list_meta
    pub items : Items m R l.items v.items

  abbrev pub TaskPtr : Rel F (Option ℕ) (Option (TaskView F))
  TaskPtr = Nilable (At ShowsTask of_task)

  abbrev pub ListPtr : Rel F (Option ℕ) (Option (ListView F))
  ListPtr = Nilable (At ShowsList of_list)

  -- What stands for a value does so in every memory that has the same at these addresses.
  abbrev pub Frames : {A V : Type 0} → Rel F A V → Type 1
  Frames {A} {V} I =
      (m m' : Memory F) (R R' : ℕ → Type 0) (a : A) (v : V)
      → ((p : ℕ) → R p → m'.cell p ≡ m.cell p)
      → ((p : ℕ) → R p → R' p)
      → I m R a v
      → I m' R' a v

  pub Same-Frames : {V : Type 0} → Frames (Same {V = V})
  Same-Frames m m' R R' a v same within h = h

  pub At-Frames : {A V : Type 0} (I : Rel F A V) (cell : A → Cell F) → Frames I → Frames (At I cell)
  At-Frames I cell frames m m' R R' p v same within (a, r, holds, h) =
      (a, within p r, same p r ∙ holds, frames m m' R R' a v same within h)

  pub Nilable-Frames : {V : Type 0} (I : Rel F ℕ V) → Frames I → Frames (Nilable I)
  Nilable-Frames I frames m m' R R' none none same within h = h
  Nilable-Frames I frames m m' R R' (some p) (some v) same within h =
      frames m m' R R' p v same within h
  Nilable-Frames I frames m m' R R' none (some v) same within h = h
  Nilable-Frames I frames m m' R R' (some p) none same within h = h

  pub Pointwise-Frames : {A V : Type 0} (I : Rel F A V) → Frames I → Frames (Pointwise I)
  Pointwise-Frames I frames m m' R R' [] [] same within h = h
  Pointwise-Frames I frames m m' R R' (a ∷ xs) (v ∷ vs) same within (h, hs) =
      (frames m m' R R' a v same within h, Pointwise-Frames I frames m m' R R' xs vs same within hs)
  Pointwise-Frames I frames m m' R R' [] (v ∷ vs) same within h = h
  Pointwise-Frames I frames m m' R R' (a ∷ xs) [] same within h = h

  -- The same for one address of cells that hold no further address.
  pub Leaf-Frames : {V : Type 0} (cell : V → Cell F) → Frames (Nilable (At Same cell))
  Leaf-Frames cell = Nilable-Frames (At Same cell) (At-Frames Same cell Same-Frames)

  pub Meta-Frames : {V : Type 0} (cell : V → Cell F) → Frames (At Same cell)
  Meta-Frames cell = At-Frames Same cell Same-Frames

  pub ShowsSpec-Frames : Frames ShowsSpec
  ShowsSpec-Frames m m' R R' s v same within h = record {
    task_id = h.task_id;
    node_name = h.node_name;
    store_size = h.store_size;
    snapshot = h.snapshot;
    elasticsearch_ref = h.elasticsearch_ref;
    indices = Leaf-Frames texts m m' R R' s.indices v.indices same within h.indices;
  }

  pub ShowsStatus-Frames : Frames ShowsStatus
  ShowsStatus-Frames m m' R R' s v same within h = record {
    reason = h.reason;
    status = h.status;
    start_at = Leaf-Frames time m m' R R' s.start_at v.start_at same within h.start_at;
    finished_at = Leaf-Frames time m m' R R' s.finished_at v.finished_at same within h.finished_at;
    conditions =
        Leaf-Frames conditions m m' R R' s.conditions v.conditions same within h.conditions;
  }

  pub ShowsTask-Frames : Frames ShowsTask
  ShowsTask-Frames m m' R R' t v same within h = record {
    type_meta = h.type_meta;
    object_meta = Meta-Frames meta m m' R R' t.object_meta v.object_meta same within h.object_meta;
    spec = ShowsSpec-Frames m m' R R' t.spec v.spec same within h.spec;
    status = ShowsStatus-Frames m m' R R' t.status v.status same within h.status;
  }

  pub Items-Frames : Frames Items
  Items-Frames =
      Nilable-Frames (At (Pointwise ShowsTask) tasks)
        (At-Frames (Pointwise ShowsTask) tasks (Pointwise-Frames ShowsTask ShowsTask-Frames))

  pub ShowsList-Frames : Frames ShowsList
  ShowsList-Frames m m' R R' l v same within h = record {
    type_meta = h.type_meta;
    list_meta = Meta-Frames list_meta_of m m' R R' l.list_meta v.list_meta same within h.list_meta;
    items = Items-Frames m m' R R' l.items v.items same within h.items;
  }

  pub TaskPtr-Frames : Frames TaskPtr
  TaskPtr-Frames =
      Nilable-Frames (At ShowsTask of_task) (At-Frames ShowsTask of_task ShowsTask-Frames)

  pub ListPtr-Frames : Frames ListPtr
  ListPtr-Frames =
      Nilable-Frames (At ShowsList of_list) (At-Frames ShowsList of_list ShowsList-Frames)
