-- ===== src/Controller/Pool/Drain.antt =====
-- That the pool never gets stuck: whatever was sent can be brought to its end.
use es_snapshot_restore.Base.{
  count, ℕ, zero, suc, ap, ◌+◌, ◌*◌, ◌<◌, ◌≡◌, refl, ◌∙◌, Bool, List, [], ◌∷◌, ◌++◌, length,
  length-append, arith, ◌⊎◌, inl, inr,
}
use es_snapshot_restore.Controller.{Queued}
use es_snapshot_restore.Controller.Pool.{
  Pool, new_pool, Move, receive, acquire, finish, Reach, here, next,
}
use es_snapshot_restore.Controller.Pool.Bounds.{Reach-safe, Reach-keeps}

-- Each entry has at most three steps before it: it is received, started and finished.
abbrev pub work : Pool → ℕ
work p = 3 * length p.queue + 2 * length p.held + length p.running

pub record IsIdle (p : Pool) : Type 0 where
  pub no_queue : p.queue ≡ []
  pub no_held : p.held ≡ []
  pub no_running : p.running ≡ []

module _ (max_tasks concurrency : ℕ) where
  -- A step that works on what was sent, and neither sends nor ends a loop.
  abbrev Advance : Pool → Type 0
  Advance p =
      (p' : Pool) × Move max_tasks concurrency p p'
      × (work p' < work p)
      × (p'.loops ≡ p.loops)
      × (p'.sent ≡ p.sent)

  next_step :
      (p : Pool) (r h q : List Queued)
      → 0 < concurrency
      → 0 < p.loops
      → p.running ≡ r
      → p.held ≡ h
      → p.queue ≡ q
      → IsIdle p ⊎ Advance p
  next_step p (t ∷ ys) h q c l er eh eq = inr (
    record p { running = ys; done = p.done ++ (t ∷ []) },
    finish [] t ys er refl,
    omega (arith, ap length er),
    refl,
    refl,
  )
  next_step p [] (t ∷ ys) q c l er eh eq = inr (
    record p { held = ys; running = p.running ++ (t ∷ []) },
    acquire [] t ys (ground (arith, ap length er)) eh refl,
    omega (arith, ap length er, ap length eh, length-append p.running (t ∷ [])),
    refl,
    refl,
  )
  next_step p [] [] (t ∷ ys) c l er eh eq = inr (
    record p { queue = ys; held = p.held ++ (t ∷ []) },
    receive t ys (ground (arith, ap length eh)) eq refl,
    omega (arith, ap length eh, ap length eq, length-append p.held (t ∷ [])),
    refl,
    refl,
  )
  next_step p [] [] [] c l er eh eq = inl (record { no_queue = eq; no_held = eh; no_running = er })

  Reach-IsIdle :
      (fuel : ℕ) (p₀ p : Pool)
      → 0 < concurrency
      → 0 < p.loops
      → work p < fuel
      → Reach max_tasks concurrency p₀ p
      → (p' : Pool) × Reach max_tasks concurrency p₀ p' × IsIdle p' × (p'.sent ≡ p.sent)
  Reach-IsIdle zero p₀ p c l w r = absurd (omega arith)
  Reach-IsIdle (suc fuel) p₀ p c l w r =
      elim (next_step p p.running p.held p.queue c l refl refl refl) [
        | inl idle ↦ (p, r, idle, refl)
        | inr (p', m, less, loops, sent) ↦
            let (e, re, idle, same) =
              Reach-IsIdle fuel p₀ p' c (rw loops l) (omega arith) (next r m) in
            (e, re, idle, same ∙ sent)
      ]

  -- If at least one restore may run, then from every reachable state of the pool that has a loop
  -- left, steps that send nothing lead to
  -- one where all that was sent is done, each entry as often as it was sent.
  pub Reach-drains :
      (p : Pool)
      → 0 < concurrency
      → 0 < p.loops
      → Reach max_tasks concurrency new_pool p
      → (p' : Pool) × Reach max_tasks concurrency p p'
        × (p'.sent ≡ p.sent)
        × ((f : Queued → Bool) → count f p'.done ≡ count f p.sent)
  Reach-drains p c l r =
      let (p', r', idle, same) = Reach-IsIdle (suc (work p)) p p c l (omega arith) here in
      (p', r', same, λ f. all_done p' f r' idle ∙ ap (count f) same)
    where
      all_done :
          (p' : Pool) (f : Queued → Bool)
          → Reach max_tasks concurrency p p'
          → IsIdle p'
          → count f p'.done ≡ count f p'.sent
      all_done p' f r' idle = omega (
        arith,
        (Reach-keeps max_tasks concurrency r' (Reach-safe max_tasks concurrency r)).1 f,
        ap (count f) idle.no_queue,
        ap (count f) idle.no_held,
        ap (count f) idle.no_running,
      )
