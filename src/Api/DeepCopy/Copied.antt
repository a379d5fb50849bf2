-- ===== src/Api/DeepCopy/Copied.antt =====
-- What a copy leaves: the addresses in use keep what they hold, and the result stands for the same value
-- by new addresses alone.
use es_snapshot_restore.Base.{ℕ, suc, ◌≤◌, ◌<◌, ◌≡◌, ap, ◌∙◌, refl, Option, none, some, arith}
use es_snapshot_restore.Api.Memory.{Foreign, Cell, Memory, Cmd, and_then, write, alloc, load, store}
use es_snapshot_restore.Api.DeepCopy.{copy_cell, unless_nil}
use es_snapshot_restore.Api.DeepCopy.Regions.{Rel, Same, At, Nilable, Frames}

le_trans : {a b c : ℕ} → a ≤ b → b ≤ c → a ≤ c
le_trans h k = omega arith

lt_le_trans : {a b c : ℕ} → a < b → b ≤ c → a < c
lt_le_trans h k = omega arith

module _ {F : Foreign} where
  -- The addresses drawn from `m` to `m'`.
  abbrev pub Fresh : Memory F → Memory F → ℕ → Type 0
  Fresh m m' p = (m.next ≤ p) × (p < m'.next)

  pub record Kept (m m' : Memory F) : Type 0 where
    pub grows : m.next ≤ m'.next
    pub same : (p : ℕ) → p < m.next → m'.cell p ≡ m.cell p

  -- The addresses that a set holds are in use.
  abbrev pub InUse : Memory F → (ℕ → Type 0) → Type 0
  InUse m R = (p : ℕ) → R p → p < m.next

  pub Kept-refl : (m : Memory F) → Kept m m
  Kept-refl m = record { grows = omega arith; same = λ p used. refl }

  pub InUse-Kept : {m m' : Memory F} {R : ℕ → Type 0} → Kept m m' → InUse m R → InUse m' R
  InUse-Kept k within p r = lt_le_trans (within p r) k.grows

  pub Kept-trans : {m m' m'' : Memory F} → Kept m m' → Kept m' m'' → Kept m m''
  Kept-trans k l = record {
    grows = le_trans k.grows l.grows;
    same = λ p used. l.same p (lt_le_trans used k.grows) ∙ k.same p used;
  }

  write_same : (p : ℕ) (c : Cell F) (m : Memory F) → (write p c m).cell p ≡ some c
  unfolding write
  write_same p c m = ground arith

  pub write_other :
      (p q : ℕ) (c : Cell F) (m : Memory F) → (p ≡ q → ⊥) → (write q c m).cell p ≡ m.cell p
  unfolding write
  write_other p q c m apart = ground arith

  -- An outcome of a copy of what stands for `v`.
  pub record Copied {A V : Type 0} (I : Rel F A V) (m : Memory F) (v : V)
      (r : Option (A × Memory F)) : Type 0 where
    pub out : A
    pub after : Memory F
    pub returned : r ≡ some (out, after)
    pub kept : Kept m after
    pub shows : I after (Fresh m after) out v

  -- What stood for a value before a copy still does.
  pub Frames-Kept :
      {A V : Type 0} {I : Rel F A V}
      → Frames I
      → {m m' : Memory F} {R : ℕ → Type 0} {a : A} {v : V} → Kept m m'
      → InUse m R
      → I m R a v
      → I m' R a v
  Frames-Kept frames {m} {m'} {R} {a} {v} k within h =
      frames m m' R R a v (λ p r. k.same p (within p r)) (λ p r. r) h

  -- The result of a first copy, after the next.
  pub Frames-first :
      {A V : Type 0} {I : Rel F A V}
      → Frames I
      → (m : Memory F) {m' m'' : Memory F} {a : A} {v : V} → Kept m' m''
      → I m' (Fresh m m') a v
      → I m'' (Fresh m m'') a v
  Frames-first frames m {m'} {m''} {a} {v} k h =
      frames m' m'' (Fresh m m') (Fresh m m'') a v (λ p (from, to). k.same p to)
        (λ p (from, to). (from, lt_le_trans to k.grows)) h

  -- That of the next copy, among all the new addresses.
  pub Frames-next :
      {A V : Type 0} {I : Rel F A V}
      → Frames I
      → (m : Memory F) {m' m'' : Memory F} {a : A} {v : V} → Kept m m'
      → I m'' (Fresh m' m'') a v
      → I m'' (Fresh m m'') a v
  Frames-next frames m {m'} {m''} {a} {v} k h =
      frames m'' m'' (Fresh m' m'') (Fresh m m'') a v (λ p r. refl)
        (λ p (from, to). (le_trans k.grows from, to)) h

  -- A copy of whatever stands for a value by addresses in use.
  abbrev pub Copies : {A V : Type 0} → Rel F A V → (A → Cmd F A) → Type 1
  Copies {A} {V} I into =
      (m : Memory F) (R : ℕ → Type 0) (a : A) (v : V)
      → InUse m R
      → I m R a v
      → Copied I m v (into a m)

  pub Same-Copies :
      {V : Type 0} (copy : V → V)
      → ((v : V) → copy v ≡ v)
      → Copies (Same {V = V}) (λ a m. some (copy a, m))
  Same-Copies copy faithful m R a v within h = record {
    out = copy a;
    after = m;
    returned = refl;
    kept = Kept-refl m;
    shows = faithful a ∙ h;
  }

  pub Nilable-Copies :
      {V : Type 0} {I : Rel F ℕ V} {into : ℕ → Cmd F ℕ}
      → Copies I into
      → Copies (Nilable I) (unless_nil into)
  Nilable-Copies copies m R none none within h = record {
    out = none;
    after = m;
    returned = refl;
    kept = Kept-refl m;
    shows = tt;
  }
  Nilable-Copies copies m R (some p) (some v) within h =
      let c = copies m R p v within h in
      record {
        out = some c.out;
        after = c.after;
        returned = ap (λ r. and_then r (λ q m. some (some q, m))) c.returned;
        kept = c.kept;
        shows = c.shows;
      }
  Nilable-Copies copies m R none (some v) within h = absurd h
  Nilable-Copies copies m R (some p) none within h = absurd h

  -- The memory after `new`, before the rest is written.
  drawn : Cell F → Memory F → Memory F
  drawn c m = write m.next c (record m { next = suc m.next })

  drawn-Kept : (c : Cell F) (m : Memory F) → Kept m (drawn c m)
  unfolding drawn write
  drawn-Kept c m = record {
    grows = omega arith;
    same = λ p used. write_other p m.next c (record m { next = suc m.next }) (λ e. omega arith);
  }

  write-Kept :
      (q : ℕ) (c : Cell F) {m m' : Memory F} → Kept m m' → m.next ≤ q → Kept m (write q c m')
  unfolding write
  write-Kept q c {m} {m'} k from = record {
    grows = k.grows;
    same = λ p used. write_other p q c m' (λ e. omega arith) ∙ k.same p used;
  }

  load_lem :
      {A : Type 0} (pick : Cell F → Option A) (p : ℕ) {m : Memory F} {c : Cell F} {a : A}
      → m.cell p ≡ some c
      → pick c ≡ some a
      → load pick p m ≡ some (a, m)
  unfolding load
  load_lem pick p holds picked = rw (holds, load) (rw picked refl)

  copy_cell_lem :
      {A : Type 0} (pick : Cell F → Option A) (into : A → Cmd F A) (cell : A → Cell F) (p : ℕ)
      {m m' : Memory F} {a b : A}
      → load pick p m ≡ some (a, m)
      → into a (drawn (cell a) m) ≡ some (b, m')
      → copy_cell pick into cell p m ≡ some (m.next, write m.next (cell b) m')
  unfolding drawn alloc store
  copy_cell_lem pick into cell p loaded filled = rw loaded (rw filled refl)

  -- What the rest of a copy stored elsewhere does not meet the write that ends it.
  Frames-write :
      {A V : Type 0} {I : Rel F A V}
      → Frames I
      → (m : Memory F) {m' : Memory F} {b : A} {v : V} (c d : Cell F)
      → I m' (Fresh (drawn d m) m') b v
      → I (write m.next c m') (Fresh m (write m.next c m')) b v
  unfolding drawn write
  Frames-write frames m {m'} {b} {v} c d h =
      frames m' (write m.next c m') (Fresh (drawn d m) m') (Fresh m (write m.next c m')) b v
        (λ p (from, to). write_other p m.next c m' (λ e. omega arith))
        (λ p (from, to). (omega arith, to)) h

  pub At-Copies :
      {A V : Type 0} {I : Rel F A V} {into : A → Cmd F A}
      → (pick : Cell F → Option A) (cell : A → Cell F) → ((a : A) → pick (cell a) ≡ some a)
      → Frames I
      → Copies I into
      → Copies (At I cell) (copy_cell pick into cell)
  unfolding drawn write
  At-Copies {A} {V} {I} {into} pick cell picks frames copies m R p v within (a, r, holds, h) =
      let k = drawn-Kept (cell a) m in
      let c =
        copies (drawn (cell a) m) R a v (InUse-Kept k within) (Frames-Kept frames k within h) in
      record {
        out = m.next;
        after = write m.next (cell c.out) c.after;
        returned = copy_cell_lem pick into cell p (load_lem pick p holds (picks a)) c.returned;
        kept = write-Kept m.next (cell c.out) (Kept-trans k c.kept) (omega arith);
        shows = (
          c.out,
          (omega arith, c.kept.grows),
          write_same m.next (cell c.out) c.after,
          Frames-write frames m (cell c.out) (cell a) c.shows,
        );
      }
