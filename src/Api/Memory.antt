-- ===== src/Api/Memory.antt =====
-- The types of internal/controller/api/v1/restoretask_types.go as they lie in memory, for the code that
-- copies them. A pointer or a slice that is not nil is an address; that of a slice holds its elements up
-- to its length. `ObjectMeta`, `ListMeta`, `Time` and `Condition` are of another package and stand for
-- their contents; as metadata holds maps, slices and pointers of its own, which two values may share, it
-- is an address, too.
use es_snapshot_restore.Base.{ℕ, suc, String, Option, none, some, List, eqb, if◌then◌else◌}
use es_snapshot_restore.Api.{SnapshotRef, ElasticsearchRef}

pub record Foreign : Type 1 where
  pub ObjectMeta : Type 0
  pub ListMeta : Type 0
  pub Time : Type 0
  pub Condition : Type 0

-- The same types with the metadata, indices, times and conditions themselves in place of addresses are what a
-- value stands for.
pub record SpecOf (S : Type 0) : Type 0 where
  pub task_id : String
  pub node_name : String
  pub store_size : String
  pub snapshot : SnapshotRef
  pub indices : Option S
  pub elasticsearch_ref : ElasticsearchRef

pub record StatusOf (P Q : Type 0) : Type 0 where
  pub reason : String
  pub start_at : Option P
  pub finished_at : Option P
  pub status : String
  pub conditions : Option Q

pub record TypeMeta : Type 0 where
  pub kind : String
  pub api_version : String

pub record TaskOf (N S P Q : Type 0) : Type 0 where
  pub type_meta : TypeMeta
  pub object_meta : N
  pub spec : SpecOf S
  pub status : StatusOf P Q

pub record ListOf (L I : Type 0) : Type 0 where
  pub type_meta : TypeMeta
  pub list_meta : L
  pub items : Option I

module _ (F : Foreign) where
  open F use {ObjectMeta, ListMeta, Time, Condition}

  abbrev pub TaskAt : Type 0
  TaskAt = TaskOf ℕ ℕ ℕ ℕ

  -- What an address holds.
  pub data Cell : Type 0 where
    texts : List String → Cell
    meta : ObjectMeta → Cell
    list_meta_of : ListMeta → Cell
    time : Time → Cell
    conditions : List Condition → Cell
    tasks : List TaskAt → Cell
    of_snapshot : SnapshotRef → Cell
    of_elasticsearch : ElasticsearchRef → Cell
    of_spec : SpecOf ℕ → Cell
    of_status : StatusOf ℕ ℕ → Cell
    of_task : TaskAt → Cell
    of_list : ListOf ℕ ℕ → Cell

  -- The addresses below `next` are in use.
  pub record Memory : Type 0 where
    pub next : ℕ
    pub cell : ℕ → Option Cell

  -- `none` is a fault.
  abbrev pub Cmd : Type 0 → Type 0
  Cmd A = Memory → Option (A × Memory)

module _ {F : Foreign} where
  unfoldable pub write : ℕ → Cell F → Memory F → Memory F
  write p c m = record m { cell = λ a. if eqb a p then some c else m.cell a }

  abbrev pub pure : {A : Type 0} → A → Cmd F A
  pure a m = some (a, m)

  abbrev pub and_then :
      {A B : Type 0} → Option (A × Memory F) → (A → Cmd F B) → Option (B × Memory F)
  and_then none k = none
  and_then (some (a, m)) k = k a m

  infixl 5 ◌>>=◌
  abbrev pub ◌>>=◌ : {A B : Type 0} → Cmd F A → (A → Cmd F B) → Cmd F B
  m >>= k = λ h. and_then (m h) k

  unfoldable pub store : ℕ → Cell F → Cmd F (Unit {0})
  unfolding write
  store p c m = some (tt, write p c m)

  -- `new` or `make`, and the first write.
  unfoldable pub alloc : Cell F → Cmd F ℕ
  unfolding write
  alloc c m = some (m.next, write m.next c (record m { next = suc m.next }))

  -- A read of an address: the cell must be of the kind that `pick` takes.
  unfoldable pub load : {A : Type 0} → (Cell F → Option A) → ℕ → Cmd F A
  load pick p m = elim (m.cell p) [
    | none ↦ none
    | some c ↦ elim (pick c) [ none ↦ none | some a ↦ some (a, m) ]
  ]
