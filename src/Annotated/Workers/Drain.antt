-- ===== src/Annotated/Workers/Drain.antt =====
-- That the earlier controller never gets stuck, with the loop that its constructor starts.
use es_snapshot_restore.Base.{
  true, count, ℕ, zero, suc, ap, ◌∙◌, ◌+◌, ◌*◌, ◌<◌, ◌≡◌, refl, Bool, List, [], ◌∷◌, ◌++◌, length,
  length-append, arith, ◌⊎◌, inl, inr,
}
use es_snapshot_restore.Annotated.{SetTask, SetClient, work_set}
use es_snapshot_restore.Annotated.Workers.{
  Workers, new_workers, wired_workers, restore_set, SetMove, start, start_hooked, call, send,
  receive, work, leave, others, SetReach, here, next, is_own, OwnReach, own_here, own_next,
}
use es_snapshot_restore.Annotated.Workers.Bounds.{SetReach-safe}

module _ {W : Type 0} (k : SetClient W) where
  -- Some loop has a context that never ends.
  abbrev IsServed : Workers W → Type 0
  IsServed p = p.hooked < p.loops

  SetMove-IsServed : {p p' : Workers W} → SetMove k p p' → IsServed p → IsServed p'
  SetMove-IsServed {p} (start e) h = ground arith
  SetMove-IsServed {p} (start_hooked e) h = ground arith
  SetMove-IsServed {p} (call req o s result e) h = ground arith
  SetMove-IsServed {p} (send xs t ys room w e) h = ground arith
  SetMove-IsServed {p} (receive t rest idle q e) h = ground arith
  SetMove-IsServed {p} (work xs t ys held e) h = ground arith
  SetMove-IsServed {p} (leave m n idle a l e) h = ground arith
  SetMove-IsServed {p} (others f e) h = ground arith

  SetReach-IsServed : {p q : Workers W} → SetReach k p q → IsServed p → IsServed q
  SetReach-IsServed here h = h
  SetReach-IsServed (next r m) h = SetMove-IsServed m (SetReach-IsServed r h)

  SetReach-append : {p q r : Workers W} → SetReach k p q → SetReach k q r → SetReach k p r
  SetReach-append r here = r
  SetReach-append r (next s m) = next (SetReach-append r s) m

  -- An entry has at most three steps before it: it is sent, received and worked on.
  abbrev set_work : Workers W → ℕ
  set_work p = 3 * length p.sending + 2 * length p.state.task_queue + length p.held

  record IsIdle (p : Workers W) : Type 0 where
    pub no_sending : p.sending ≡ []
    pub no_queue : p.state.task_queue ≡ []
    pub no_held : p.held ≡ []

  -- A step that leaves less work, and makes no entry.
  abbrev Advance : Workers W → Type 0
  Advance p =
      (p' : Workers W) × (m : SetMove k p p') × (is_own k m ≡ true)
      × (set_work p' < set_work p)
      × (p'.loops ≡ p.loops)
      × (p'.claimed ≡ p.claimed)

  next_step :
      (p : Workers W) (h q s : List SetTask)
      → 0 < p.loops
      → p.held ≡ h
      → p.state.task_queue ≡ q
      → p.sending ≡ s
      → IsIdle p ⊎ Advance p
  unfolding is_own
  next_step p (t ∷ ys) q s l eh eq ew = inr (
    record p {
      held = ys;
      done = p.done ++ (t ∷ []);
      state = record (p.state) { world = work_set k (restore_set t) t p.state.world };
    },
    work [] t ys eh refl,
    refl,
    omega (arith, ap length eh),
    refl,
    refl,
  )
  next_step p [] (t ∷ ys) s l eh eq ew = inr (
    record p { state = record (p.state) { task_queue = ys }; held = p.held ++ (t ∷ []) },
    receive t ys (ground (arith, ap length eh)) eq refl,
    refl,
    omega (arith, ap length eh, ap length eq, length-append p.held (t ∷ [])),
    refl,
    refl,
  )
  next_step p [] [] (t ∷ ys) l eh eq ew = inr (
    record p {
      sending = ys;
      state = record (p.state) { task_queue = p.state.task_queue ++ (t ∷ []) };
    },
    send [] t ys (ground (arith, ap length eq)) ew refl,
    refl,
    omega (arith, ap length ew, ap length eq, length-append p.state.task_queue (t ∷ [])),
    refl,
    refl,
  )
  next_step p [] [] [] l eh eq ew = inl (record { no_sending = ew; no_queue = eq; no_held = eh })

  OwnReach-append : {p q r : Workers W} → OwnReach k p q → OwnReach k q r → OwnReach k p r
  OwnReach-append r own_here = r
  OwnReach-append r (own_next s m own) = own_next (OwnReach-append r s) m own

  -- A run of the goroutines' own steps is a run.
  OwnReach-SetReach : {p q : Workers W} → OwnReach k p q → SetReach k p q
  OwnReach-SetReach own_here = here
  OwnReach-SetReach (own_next s m own) = next (OwnReach-SetReach s) m

  OwnReach-IsIdle :
      (fuel : ℕ) (p : Workers W)
      → 0 < p.loops
      → set_work p < fuel
      → (p' : Workers W) × OwnReach k p p' × IsIdle p' × (p'.claimed ≡ p.claimed)
  OwnReach-IsIdle zero p l w = absurd (omega arith)
  OwnReach-IsIdle (suc fuel) p l w =
      elim (next_step p p.held p.state.task_queue p.sending l refl refl refl) [
        | inl idle ↦ (p, own_here, idle, refl)
        | inr (p', step, own, less, loops, same) ↦
            let (e, r, idle, kept) = OwnReach-IsIdle fuel p' (rw loops l) (omega arith) in
            (e, OwnReach-append (own_next own_here step own) r, idle, kept ∙ same)
      ]

  -- From every state that the earlier controller comes to after its constructor has started the first
  -- loop, there is a run of steps of its loops and of calls of `Reconcile` that wait, with no new loop, no
  -- new call and nothing that others do, to a state where every stateful set that a call has marked as
  -- running has had its entry done, as often as it was marked.
  pub SetReach-drains :
      (w : W) (p : Workers W)
      → SetReach k (wired_workers w) p
      → (p' : Workers W) × OwnReach k p p'
        × (p'.claimed ≡ p.claimed)
        × ((f : SetTask → Bool) → count f p'.done ≡ count f p.claimed)
  unfolding wired_workers new_workers
  SetReach-drains w p r =
      let served : IsServed p = SetReach-IsServed r (omega arith) in
      let (p', r', idle, same) = OwnReach-IsIdle (suc (set_work p)) p (omega arith) (omega arith) in
      let from_new =
        SetReach-append (next here (start refl)) (SetReach-append r (OwnReach-SetReach r')) in
      (
        p',
        r',
        same,
        λ f. omega (
          arith,
          (SetReach-safe k w from_new).1 f,
          ap (count f) same,
          ap (count f) idle.no_sending,
          ap (count f) idle.no_queue,
          ap (count f) idle.no_held,
        ),
      )
