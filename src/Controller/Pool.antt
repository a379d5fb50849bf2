-- ===== src/Controller/Pool.antt =====
-- `StartWorker`: the goroutines that share the queue and the semaphore, as an interleaving of
-- steps. `StartWorker` is called twice: in `NewRestoreReconcilerCtrl` with `context.Background()`,
-- which never ends, and in its start hook with the hook's context, which does. So the number of
-- loops is a field, and so is the number of those whose context ends. Both channels are taken to have room for at least one.
pub mod Bounds
pub mod Drain
pub mod Wired
pub mod Order
use es_snapshot_restore.Base.{
  ℕ, zero, suc, ◌+◌, ◌<◌, ◌≡◌, Bool, true, false, List, [], ◌∷◌, ◌++◌, if◌then◌else◌, length,
}
use es_snapshot_restore.Controller.{Queued}

-- `loops` dispatch loops are running, `hooked` of them with a context that ends. `held` are the entries that a loop has received and for which
-- it waits on the semaphore; `running` those whose goroutine holds a place in it; `done` those
-- whose goroutine has given it back. `sent` is the history of all sends.
pub record Pool : Type 0 where
  pub loops : ℕ
  pub hooked : ℕ
  pub queue : List Queued
  pub held : List Queued
  pub running : List Queued
  pub done : List Queued
  pub sent : List Queued

-- `NewRestoreTaskReconciler`, before any loop is started.
unfoldable pub new_pool : Pool
new_pool = record {
  loops = 0;
  hooked = 0;
  queue = [];
  held = [];
  running = [];
  done = [];
  sent = [];
}

-- What `NewRestoreReconcilerCtrl` leaves: a new pool with the loop that it starts itself.
unfoldable pub wired_pool : Pool
unfolding new_pool
wired_pool = record new_pool { loops = 1 }

module _ (max_tasks concurrency : ℕ) where
  -- One step of one goroutine.
  pub data Move (p p' : Pool) : Type 0 where
    -- `StartWorker` with `context.Background()`
    start : p' ≡ record p { loops = suc p.loops } → Move p p'
    -- the same with the context of the start hook
    start_hooked : p' ≡ record p { loops = suc p.loops; hooked = suc p.hooked } → Move p p'
    -- `r.taskQueue <- t`, of `Reconcile`
    send :
        (t : Queued)
        → length p.queue < max_tasks
        → p' ≡ record p { queue = p.queue ++ (t ∷ []); sent = p.sent ++ (t ∷ []) }
        → Move p p'
    -- `task := <-r.taskQueue`, by a loop that holds no entry
    receive :
        (t : Queued) (rest : List Queued)
        → length p.held < p.loops
        → p.queue ≡ t ∷ rest
        → p' ≡ record p { queue = rest; held = p.held ++ (t ∷ []) }
        → Move p p'
    -- `r.sem <- struct{}{}` and the `go` statement
    acquire :
        (before : List Queued) (t : Queued) (after : List Queued)
        → length p.running < concurrency
        → p.held ≡ before ++ (t ∷ after)
        → p' ≡ record p { held = before ++ after; running = p.running ++ (t ∷ []) }
        → Move p p'
    -- the deferred `<-r.sem`
    finish :
        (before : List Queued) (t : Queued) (after : List Queued)
        → p.running ≡ before ++ (t ∷ after)
        → p' ≡ record p { running = before ++ after; done = p.done ++ (t ∷ []) }
        → Move p p'
    -- `<-ctx.Done()`, in a loop that holds no entry and whose context ends. Which loop holds which
    -- entry is not kept, so this step needs only some loop that holds none: it has all the runs of
    -- the code, and more.
    leave :
        (m n : ℕ)
        → length p.held < p.loops
        → p.hooked ≡ suc m
        → p.loops ≡ suc n
        → p' ≡ record p { loops = n; hooked = m }
        → Move p p'

  pub data Reach (p : Pool) : Pool → Type 0 where
    here : Reach p p
    next : {q r : Pool} → Reach p q → Move q r → Reach p r
