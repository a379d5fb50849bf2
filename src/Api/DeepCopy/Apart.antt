-- ===== src/Api/DeepCopy/Apart.antt =====
-- A deep copy and its original, written through apart: DeepCopy and DeepCopyObject of
-- internal/controller/api/v1/zz_generated.deepcopy.go.
use es_snapshot_restore.Base.{ℕ, ◌<◌, ◌≤◌, ◌≡◌, ◌∙◌, refl, Option, none, some, List, [], ◌∷◌, arith}
use es_snapshot_restore.Api.Memory.{Foreign, Cell, Memory, write, of_task}
use es_snapshot_restore.Api.DeepCopy.{
  Copiers, Object, task_object, list_object, deep_copy_list, as_object, deep_copy_task_object,
}
use es_snapshot_restore.Api.DeepCopy.Regions.{
  Rel, At, Frames, ShowsTask, TaskView, ListView, TaskPtr, ListPtr, At-Frames, ShowsTask-Frames,
  TaskPtr-Frames, ListPtr-Frames,
}
use es_snapshot_restore.Api.DeepCopy.Copied.{Fresh, InUse, Frames-Kept, Copied, write_other}
use es_snapshot_restore.Api.DeepCopy.Faithful.{IsFaithful, task_ptr-Copies, list_ptr-Copies}

module _ {F : Foreign} where
  -- Writes through pointers, the first one first.
  unfoldable pub writes : List (ℕ × Cell F) → Memory F → Memory F
  writes [] m = m
  writes ((p, c) ∷ ws) m = writes ws (write p c m)

  -- They are at addresses of a set.
  abbrev pub AllAt : (ℕ → Type 0) → List (ℕ × Cell F) → Type 0
  AllAt R [] = Unit {0}
  AllAt R ((p, c) ∷ ws) = R p × AllAt R ws

  -- `task_object` of a pointer to a task, or nil.
  abbrev pub TaskObject : Rel F (Option Object) (Option (TaskView F))
  TaskObject m R none none = Unit {0}
  TaskObject m R (some (task_object p)) (some v) = At ShowsTask of_task m R p v
  TaskObject m R none (some v) = ⊥
  TaskObject m R (some o) none = ⊥
  TaskObject m R (some (list_object p)) (some v) = ⊥

  writes_other :
      (p : ℕ) (R : ℕ → Type 0) (ws : List (ℕ × Cell F)) (m : Memory F)
      → (R p → ⊥)
      → AllAt R ws
      → (writes ws m).cell p ≡ m.cell p
  unfolding writes
  writes_other p R [] m out every = refl
  writes_other p R ((q, c) ∷ ws) m out (r, every) =
      writes_other p R ws (write q c m) out every ∙ write_other p q c m (λ e. out (rw e r))

  -- What stands for a value still does after writes elsewhere.
  Frames-writes :
      {A V : Type 0} {I : Rel F A V}
      → Frames I
      → (m : Memory F) (R W : ℕ → Type 0) (a : A) (v : V) (ws : List (ℕ × Cell F))
      → ((p : ℕ) → R p → W p → ⊥)
      → AllAt W ws
      → I m R a v
      → I (writes ws m) R a v
  Frames-writes frames m R W a v ws apart every h =
      frames m (writes ws m) R R a v (λ p r. writes_other p W ws m (apart p r) every) (λ p r. r) h

  -- The copy, whatever `ws` write through the original, and the original, whatever `us` write
  -- through the copy, stand for `v`.
  pub record Apart {A B V : Type 0} (I : Rel F A V) (J : Rel F B V) (m : Memory F) (R : ℕ → Type 0)
      (a : A) (v : V) (r : Option (B × Memory F)) (ws us : List (ℕ × Cell F)) : Type 0 where
    pub out : B
    pub after : Memory F
    pub returned : r ≡ some (out, after)
    pub copy : J (writes ws after) (Fresh m after) out v
    pub original : I (writes us after) R a v

  Copied-Apart :
      {A B V : Type 0} {I : Rel F A V} {J : Rel F B V}
      → Frames I
      → Frames J
      → (m : Memory F) (R : ℕ → Type 0) (a : A) (v : V) {r : Option (B × Memory F)} → InUse m R
      → I m R a v
      → (ws us : List (ℕ × Cell F)) → AllAt (λ p. p < m.next) ws
      → AllAt (λ p. m.next ≤ p) us
      → Copied J m v r
      → Apart I J m R a v r ws us
  Copied-Apart frames framed m R a v within h ws us old new c = record {
    out = c.out;
    after = c.after;
    returned = c.returned;
    copy =
        Frames-writes framed c.after (Fresh m c.after) (λ p. p < m.next) c.out v ws
          (λ p (from, to) below. omega arith) old c.shows;
    original =
        Frames-writes frames c.after R (λ p. m.next ≤ p) a v us
          (λ p r above. let below = within p r in omega arith) new
          (Frames-Kept frames c.kept within h);
  }

  TaskObject-Frames : Frames TaskObject
  TaskObject-Frames m m' R R' none none same inside h = h
  TaskObject-Frames m m' R R' (some (task_object p)) (some v) same inside h =
      At-Frames ShowsTask of_task ShowsTask-Frames m m' R R' p v same inside h
  TaskObject-Frames m m' R R' none (some v) same inside h = h
  TaskObject-Frames m m' R R' (some o) none same inside h = absurd h
  TaskObject-Frames m m' R R' (some (list_object p)) (some v) same inside h = h

  as_object-TaskObject :
      (m : Memory F) (R : ℕ → Type 0) (p : Option ℕ) (v : Option (TaskView F))
      → TaskPtr m R p v
      → TaskObject m R (as_object task_object p) v
  as_object-TaskObject m R none none h = h
  as_object-TaskObject m R (some p) (some v) h = h
  as_object-TaskObject m R none (some v) h = h
  as_object-TaskObject m R (some p) none h = h

module _ {F : Foreign} (c : Copiers F) where
  -- Suppose the deep copies of the metadata, times and conditions yield equal values, and `p` is nil or
  -- points to a list of tasks that stands for `v` by addresses in use, its slices and times included.
  -- `DeepCopy` on `p` then does not fault, and what it returns is nil just if `p` is, stands for the
  -- same `v`, and does so by new addresses alone: writes at addresses that were in use do not change what
  -- the copy stands for, nor writes at new ones what the original does.
  pub deep_copy_list-Apart :
      IsFaithful c
      → (m : Memory F) (R : ℕ → Type 0) (p : Option ℕ) (v : Option (ListView F)) → InUse m R
      → ListPtr m R p v
      → (ws us : List (ℕ × Cell F)) → AllAt (λ p. p < m.next) ws
      → AllAt (λ p. m.next ≤ p) us
      → Apart ListPtr ListPtr m R p v (deep_copy_list c p m) ws us
  deep_copy_list-Apart faithful m R p v within h ws us old new =
      Copied-Apart ListPtr-Frames ListPtr-Frames m R p v within h ws us old new
        (list_ptr-Copies c faithful m R p v within h)

  TaskObject-Copied :
      IsFaithful c
      → (m : Memory F) (R : ℕ → Type 0) (p : Option ℕ) (v : Option (TaskView F)) → InUse m R
      → TaskPtr m R p v
      → Copied TaskObject m v (deep_copy_task_object c p m)
  unfolding deep_copy_task_object
  TaskObject-Copied faithful m R p v within h =
      let d = task_ptr-Copies c faithful m R p v within h in
      record {
        out = as_object task_object d.out;
        after = d.after;
        returned = rw d.returned refl;
        kept = d.kept;
        shows = as_object-TaskObject d.after (Fresh m d.after) d.out v d.shows;
      }

  -- Suppose the deep copies of the metadata, times and conditions yield equal values, and `p` is nil or
  -- points to a task that stands for `v` by addresses in use, its slices and times included.
  -- `DeepCopyObject` on `p` then does not fault, and the interface that it returns is nil just if `p` is,
  -- and else holds a pointer to a task, never one to a list, that stands for the same `v` by new addresses
  -- alone: writes at addresses that were in use do not change what the copy stands for, nor writes at new
  -- ones what the original does.
  pub deep_copy_task_object-Apart :
      IsFaithful c
      → (m : Memory F) (R : ℕ → Type 0) (p : Option ℕ) (v : Option (TaskView F)) → InUse m R
      → TaskPtr m R p v
      → (ws us : List (ℕ × Cell F)) → AllAt (λ p. p < m.next) ws
      → AllAt (λ p. m.next ≤ p) us
      → Apart TaskPtr TaskObject m R p v (deep_copy_task_object c p m) ws us
  deep_copy_task_object-Apart faithful m R p v within h ws us old new =
      Copied-Apart TaskPtr-Frames TaskObject-Frames m R p v within h ws us old new
        (TaskObject-Copied faithful m R p v within h)
