-- ===== src/Controller/System.antt =====
-- The reconciler as a whole: calls of `Reconcile`, the dispatch loops of `StartWorker` and the
-- goroutines that they start, over one queue and one world, as an interleaving of steps. A call of
-- `Reconcile`, the start of a restore and each of its rounds are one step. A panic of a goroutine, of
-- `time.NewTicker` or on an entry without an index, ends the program, so no step follows it; one of `Reconcile` is caught by controller-runtime, and the
-- entries are as after any call that sends nothing.
pub mod Begin
pub mod Pooled
pub mod Indexed
pub mod Advance
pub mod Drain
pub mod Safe
pub mod Idle
use es_snapshot_restore.Base.{
  capacity, ℕ, suc, Bool, true, false, ◌<◌, ◌≡◌, Option, none, some, List, [], ◌∷◌, ◌++◌, length,
  Error, ◌⊎◌,
}
use es_snapshot_restore.Api.{NamespacedName}
use es_snapshot_restore.K8s.{Labels}
use es_snapshot_restore.Db.{Task, Database}
use es_snapshot_restore.Elastic.{Search}
use es_snapshot_restore.Controller.{Queued, State, Outcome, in_hand}
use es_snapshot_restore.Controller.Clock.{is_positive, poll_interval}
use es_snapshot_restore.Controller.Reconcile.{Env, reconcile}
use es_snapshot_restore.Controller.Restore.{Wake, tick, time_out, finished, on_wake}
use es_snapshot_restore.Controller.Restore.Worker.{report}
use es_snapshot_restore.Controller.System.Begin.{Begun, ended, polling, begin_restore}

-- Where the goroutine of an entry stands: before `restoreIndices`, in its loop with the rows and the
-- row that it has found, or behind it with what it has returned.
pub data Phase (T : Type 0) : Type 0 where
  begun : Phase T
  waiting : List (Task T) → Task T → Phase T
  over : Option Error → Phase T

-- As in a pool; `sending` are the entries for which a call of `Reconcile` waits.
pub record System (T W : Type 0) : Type 0 where
  pub loops : ℕ
  pub hooked : ℕ
  pub state : State W
  pub sending : List Queued
  pub held : List Queued
  pub running : List (Queued × Phase T)
  pub done : List Queued
  pub sent : List Queued

-- `NewRestoreReconcilerCtrl` at its end, if `make` has not panicked on a negative `max_tasks` or
-- `concurrency`, over a shared map of labels and a world.
unfoldable pub new_system : {T W : Type 0} → Option Labels → W → System T W
new_system labels w = record {
  loops = 1;
  hooked = 0;
  state = record { labels = labels; task_queue = []; world = w };
  sending = [];
  held = [];
  running = [];
  done = [];
  sent = [];
}

-- Where the goroutine stands after a round of its loop.
abbrev pub after_wake : {T : Type 0} → List (Task T) → Task T → Option (Option Error) → Phase T
after_wake rows t none = waiting rows t
after_wake rows t (some e) = over e

abbrev pub put_world : {W : Type 0} → State W → W → State W
put_world s w = record s { world = w }

module _ {Q NA T W : Type 0} (env : Env Q NA T W) (db : Database T W) (es : Search W)
    (Others : W → W → Type 0) where
  open env use {cluster as k, config as c}

  pub data SystemMove (p p' : System T W) : Type 0 where
    -- `StartWorker` with `context.Background()`, and with the context of the start hook
    start : p' ≡ record p { loops = suc p.loops } → SystemMove p p'
    start_hooked : p' ≡ record p { loops = suc p.loops; hooked = suc p.hooked } → SystemMove p p'
    -- a call of `Reconcile` that sends nothing
    call :
        (req : NamespacedName) (o : Outcome) (s : State W)
        → reconcile env req p.state ≡ (o, s)
        → s.task_queue ≡ p.state.task_queue
        → p' ≡ record p { state = s; sending = p.sending ++ in_hand o }
        → SystemMove p p'
    -- a call of `Reconcile` that sends an entry
    call_sends :
        (req : NamespacedName) (o : Outcome) (s : State W) (t : Queued)
        → reconcile env req p.state ≡ (o, s)
        → s.task_queue ≡ p.state.task_queue ++ (t ∷ [])
        → p' ≡ record p { state = s; sent = p.sent ++ (t ∷ []) }
        → SystemMove p p'
    -- the send, once there is room
    send :
        (before : List Queued) (t : Queued) (after : List Queued)
        → length p.state.task_queue < capacity c.max_tasks
        → p.sending ≡ before ++ (t ∷ after)
        → p' ≡ record p {
          sending = before ++ after;
          state = record (p.state) { task_queue = p.state.task_queue ++ (t ∷ []) };
          sent = p.sent ++ (t ∷ []);
        }
        → SystemMove p p'
    -- `task := <-r.taskQueue`, by a loop that holds no entry
    receive :
        (t : Queued) (rest : List Queued)
        → length p.held < p.loops
        → p.state.task_queue ≡ t ∷ rest
        → p'
          ≡ record p { state = record (p.state) { task_queue = rest }; held = p.held ++ (t ∷ []) }
        → SystemMove p p'
    -- `r.sem <- struct{}{}` and the `go` statement
    acquire :
        (before : List Queued) (t : Queued) (after : List Queued)
        → length p.running < capacity c.concurrency
        → p.held ≡ before ++ (t ∷ after)
        → p' ≡ record p { held = before ++ after; running = p.running ++ ((t, begun) ∷ []) }
        → SystemMove p p'
    -- `restoreIndices` up to its loop: it ends, or its ticker is made and it goes on to wait
    begin_ends :
        (before : List (Queued × Phase T)) (t : Queued) (after : List (Queued × Phase T)) (w : W)
        (e : Option Error)
        → p.running ≡ before ++ ((t, begun) ∷ after)
        → begin_restore db es c.restore_key c.timeout t p.state.world ≡ (w, ended (finished e))
        → p' ≡ record p { running = before ++ ((t, over e) ∷ after); state = put_world p.state w }
        → SystemMove p p'
    begin_waits :
        (before : List (Queued × Phase T)) (t : Queued) (after : List (Queued × Phase T)) (w : W)
        (rows : List (Task T)) (row : Task T)
        → p.running ≡ before ++ ((t, begun) ∷ after)
        → begin_restore db es c.restore_key c.timeout t p.state.world ≡ (w, polling rows row)
        → is_positive (poll_interval c.interval) ≡ true
        → p' ≡ record p {
          running = before ++ ((t, waiting rows row) ∷ after);
          state = put_world p.state w;
        }
        → SystemMove p p'
    -- one round of the loop, on a tick or the time-out
    wake :
        (before : List (Queued × Phase T)) (t : Queued) (after : List (Queued × Phase T))
        (rows : List (Task T)) (row : Task T) (e : Wake W) (w : W) (r : Option (Option Error))
        → p.running ≡ before ++ ((t, waiting rows row) ∷ after)
        → (e ≡ tick (λ v. v)) ⊎ (e ≡ time_out (λ v. v))
        → on_wake db es c.restore_key c.timeout rows row e p.state.world ≡ (w, r)
        → p' ≡ record p {
          running = before ++ ((t, after_wake rows row r) ∷ after);
          state = put_world p.state w;
        }
        → SystemMove p p'
    -- `updateTaskStatus`, and the deferred `<-r.sem`
    finish :
        (before : List (Queued × Phase T)) (t : Queued) (after : List (Queued × Phase T))
        (e : Option Error)
        → p.running ≡ before ++ ((t, over e) ∷ after)
        → p' ≡ record p {
          running = before ++ after;
          done = p.done ++ (t ∷ []);
          state =
              put_world p.state
                (report k db es c.restore_key c.timeout t (p.state.world, finished e)).0;
        }
        → SystemMove p p'
    -- `<-ctx.Done()`, as in a pool
    leave :
        (m n : ℕ)
        → length p.held < p.loops
        → p.hooked ≡ suc m
        → p.loops ≡ suc n
        → p' ≡ record p { loops = n; hooked = m }
        → SystemMove p p'
    -- what others do to the world
    others :
        (w : W)
        → Others p.state.world w
        → p' ≡ record p { state = put_world p.state w }
        → SystemMove p p'

  -- The steps of the goroutines of `StartWorker`, and those of calls of `Reconcile` that wait: not a new
  -- loop, nor a new call, nor what others do.
  unfoldable pub is_own : {p p' : System T W} → SystemMove p p' → Bool
  is_own (start e) = false
  is_own (start_hooked e) = false
  is_own (call req o s r same e) = false
  is_own (call_sends req o s t r longer e) = false
  is_own (send xs t ys room w e) = true
  is_own (receive t rest idle q e) = true
  is_own (acquire xs t ys free h e) = true
  is_own (begin_ends xs t ys w x r b e) = true
  is_own (begin_waits xs t ys w rows row r b ticks e) = true
  is_own (wake xs t ys rows row x w a r which woken e) = true
  is_own (finish xs t ys x r e) = true
  is_own (leave m n idle a l e) = false
  is_own (others w o e) = false

  -- Runs of such steps alone.
  pub data OwnReach (p : System T W) : System T W → Type 0 where
    own_here : OwnReach p p
    own_next :
        {q r : System T W} → OwnReach p q → (m : SystemMove q r) → is_own m ≡ true → OwnReach p r

  pub data SystemReach (p : System T W) : System T W → Type 0 where
    here : SystemReach p p
    next : {q r : System T W} → SystemReach p q → SystemMove q r → SystemReach p r
