-- ===== src/Controller/Pool/Wired.antt =====
-- The pool as the program starts it: one of its loops never ends, so it always drains.
use es_snapshot_restore.Base.{count, ℕ, ◌<◌, ◌≡◌, refl, Bool, arith}
use es_snapshot_restore.Controller.{Queued}
use es_snapshot_restore.Controller.Pool.{
  Pool, new_pool, wired_pool, Move, start, start_hooked, send, receive, acquire, finish, leave,
  Reach, here, next,
}
use es_snapshot_restore.Controller.Pool.Bounds.{IsBounded, IsConserved, Reach-safe}
use es_snapshot_restore.Controller.Pool.Drain.{Reach-drains}

module _ (max_tasks concurrency : ℕ) where
  -- Some loop has a context that never ends.
  abbrev pub IsServed : Pool → Type 0
  IsServed p = p.hooked < p.loops

  Move-IsServed : {p p' : Pool} → Move max_tasks concurrency p p' → IsServed p → IsServed p'
  Move-IsServed {p} {p'} (start e) h = ground arith
  Move-IsServed {p} {p'} (start_hooked e) h = ground arith
  Move-IsServed {p} {p'} (send t room e) h = ground arith
  Move-IsServed {p} {p'} (receive t rest idle q e) h = ground arith
  Move-IsServed {p} {p'} (acquire xs t ys free held e) h = ground arith
  Move-IsServed {p} {p'} (finish xs t ys r e) h = ground arith
  Move-IsServed {p} {p'} (leave m n idle k l e) h = ground arith

  Reach-IsServed : {p q : Pool} → Reach max_tasks concurrency p q → IsServed p → IsServed q
  Reach-IsServed here h = h
  Reach-IsServed (next r m) h = Move-IsServed m (Reach-IsServed r h)

  Reach-prepend :
      {p q r : Pool}
      → Move max_tasks concurrency p q
      → Reach max_tasks concurrency q r
      → Reach max_tasks concurrency p r
  Reach-prepend m here = next here m
  Reach-prepend m (next r n) = next (Reach-prepend m r) n

  -- A pool that starts with its first loop is one that starts it.
  pub wired_pool-safe :
      {p : Pool}
      → Reach max_tasks concurrency wired_pool p
      → IsBounded max_tasks concurrency p × IsConserved max_tasks concurrency p
  unfolding wired_pool
  wired_pool-safe r = Reach-safe max_tasks concurrency (Reach-prepend (start refl) r)

  -- If at least one restore may run, then from every state that the pool comes to after
  -- `NewRestoreReconcilerCtrl` has started its first loop, whatever loops the hook has started and
  -- whichever of those have ended, some loop is running, and there is a run that sends nothing to a
  -- state where all that was sent is done, each entry as often as it was sent.
  pub wired_pool_drains :
      (p : Pool)
      → 0 < concurrency
      → Reach max_tasks concurrency wired_pool p
      → (0 < p.loops)
        × ((p' : Pool) × Reach max_tasks concurrency p p'
            × (p'.sent ≡ p.sent)
            × ((f : Queued → Bool) → count f p'.done ≡ count f p.sent))
  unfolding wired_pool new_pool
  wired_pool_drains p c r =
      let served : IsServed p = Reach-IsServed r (omega arith) in
      let running : 0 < p.loops = omega arith in
      (running, Reach-drains max_tasks concurrency p c running (Reach-prepend (start refl) r))
