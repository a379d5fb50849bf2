-- ===== src/Controller/Pool/Bounds.antt =====
-- What holds of the pool after any interleaving: the bounds of the channels, and that no entry is
-- lost or handled twice.
use es_snapshot_restore.Base.{
  ℕ, ap, ◌+◌, ◌≤◌, ◌≡◌, refl, Bool, [], ◌∷◌, length, length-append, count, count-append, arith,
}
use es_snapshot_restore.Controller.{Queued}
use es_snapshot_restore.Controller.Pool.{
  Pool, new_pool, Move, start, start_hooked, send, receive, acquire, finish, leave, Reach, here,
  next,
}

module _ (max_tasks concurrency : ℕ) where
  pub record IsBounded (p : Pool) : Type 0 where
    pub queue_fits : length p.queue ≤ max_tasks
    pub loops_hold_one : length p.held ≤ p.loops
    pub sem_fits : length p.running ≤ concurrency

  -- Every entry that was sent is in exactly one place.
  abbrev pub IsConserved : Pool → Type 0
  IsConserved p =
      (f : Queued → Bool)
      → count f p.sent ≡ count f p.queue + count f p.held + count f p.running + count f p.done

  Move-IsBounded : {p p' : Pool} → Move max_tasks concurrency p p' → IsBounded p → IsBounded p'
  Move-IsBounded {p} {p'} (start e) b = ground arith
  Move-IsBounded {p} {p'} (start_hooked e) b = ground arith
  Move-IsBounded {p} {p'} (send t room e) b = ground (arith, length-append p.queue (t ∷ []))
  Move-IsBounded {p} {p'} (receive t rest idle q e) b =
      ground (arith, length-append p.held (t ∷ []), ap length q)
  Move-IsBounded {p} {p'} (acquire xs t ys free h e) b = ground (
    arith,
    length-append p.running (t ∷ []),
    length-append xs (t ∷ ys),
    length-append xs ys,
    ap length h,
  )
  Move-IsBounded {p} {p'} (finish xs t ys r e) b =
      ground (arith, length-append xs (t ∷ ys), length-append xs ys, ap length r)
  Move-IsBounded {p} {p'} (leave m n idle k l e) b = ground arith

  Move-IsConserved :
      {p p' : Pool} → Move max_tasks concurrency p p' → IsConserved p → IsConserved p'
  Move-IsConserved {p} (start e) c f = ground (arith, c f)
  Move-IsConserved {p} (start_hooked e) c f = ground (arith, c f)
  Move-IsConserved {p} (send t room e) c f =
      ground (arith, c f, count-append f p.sent (t ∷ []), count-append f p.queue (t ∷ []))
  Move-IsConserved {p} (receive t rest idle q e) c f =
      ground (arith, c f, ap (count f) q, count-append f p.held (t ∷ []))
  Move-IsConserved {p} (acquire xs t ys free h e) c f = ground (
    arith,
    c f,
    ap (count f) h,
    count-append f p.running (t ∷ []),
    count-append f xs (t ∷ ys),
    count-append f xs ys,
  )
  Move-IsConserved {p} (finish xs t ys r e) c f = ground (
    arith,
    c f,
    ap (count f) r,
    count-append f p.done (t ∷ []),
    count-append f xs (t ∷ ys),
    count-append f xs ys,
  )
  Move-IsConserved {p} (leave m n idle k l e) c f = ground (arith, c f)

  pub Reach-keeps :
      {p q : Pool}
      → Reach max_tasks concurrency p q
      → IsBounded p × IsConserved p
      → IsBounded q × IsConserved q
  Reach-keeps here h = h
  Reach-keeps (next r m) h =
      let (b, c) = Reach-keeps r h in (Move-IsBounded m b, Move-IsConserved m c)

  -- After any interleaving from the start, the queue holds at most `max_tasks` entries, the
  -- loops hold no more than there are loops, at most `concurrency` restores run, and every entry that was sent is in
  -- exactly one of the queue, the hands of a loop, the running and the done ones.
  pub Reach-safe : {p : Pool} → Reach max_tasks concurrency new_pool p → IsBounded p × IsConserved p
  unfolding new_pool
  Reach-safe r = Reach-keeps r (omega arith, λ f. refl)
