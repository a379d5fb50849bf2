-- ===== src/Annotated/Workers.antt =====
-- internal/controller/controller.go, `StartWorker` of the earlier controller and `Reconcile` beside it:
-- the goroutines that share the queue, as an interleaving of steps. A call of `Reconcile` and the
-- work on an entry are one step each, but for the wait for room in the queue.
pub mod Bounds
pub mod Drain
use es_snapshot_restore.Base.{
  Bool, true, false, some, ok, err, eqb, ◌==◌, if◌then◌else◌, ℕ, suc, ◌<◌, ◌≡◌, Option, none, List,
  [], ◌∷◌, ◌++◌, length, Error,
}
use es_snapshot_restore.Api.{NamespacedName, StatefulSet}
use es_snapshot_restore.Controller.{restore_status_pending, restore_status_running}
use es_snapshot_restore.Annotated.{
  annotation, annotation_restore_task_status, annotation_restore_task_id, with_state, SetTask,
  SetClient, SetState, SetOutcome, returned, panicked, waits, reconcile_set, work_set,
}

-- `restoreIndices` of this package, after its sleep.
unfoldable pub restore_set : SetTask → Option Error
restore_set t = none

-- `loops` loops are running, `hooked` of them with a context that ends. `sending` are the entries
-- for which a call of `Reconcile` waits; `held` those that a loop is at work on; `done` those that
-- it has finished. `claimed` is the history of the sets that calls of `Reconcile` have marked as running.
pub record Workers (W : Type 0) : Type 0 where
  pub loops : ℕ
  pub hooked : ℕ
  pub state : SetState W
  pub sending : List SetTask
  pub held : List SetTask
  pub done : List SetTask
  pub claimed : List SetTask

-- `NewRestoreReconciler`, before any loop is started.
unfoldable pub new_workers : {W : Type 0} → W → Workers W
new_workers w = record {
  loops = 0;
  hooked = 0;
  state = record { task_queue = []; world = w };
  sending = [];
  held = [];
  done = [];
  claimed = [];
}

-- What `NewRestoreReconcilerCtrl` leaves: the loop that it starts itself.
unfoldable pub wired_workers : {W : Type 0} → W → Workers W
unfolding new_workers
wired_workers w = record (new_workers w) { loops = 1 }

-- The entry that a call has in hand when it has to wait.
abbrev pub in_hand : SetOutcome → List SetTask
in_hand (returned e) = []
in_hand panicked = []
in_hand (waits t) = t ∷ []

-- The stateful sets that a call for `req` marks as running in a world, by the writes that succeed: a
-- pending set of which all replicas are ready, each as the entry with its task and the call's name.
module _ {W : Type 0} (k : SetClient W) where
  abbrev pub marks : NamespacedName → StatefulSet → W → List SetTask
  marks req sts w =
      if annotation annotation_restore_task_status sts == restore_status_pending
      then elim (k.patch_sts sts (with_state restore_status_running sts) w).1 [
        | some e ↦ []
        | none ↦
            record {
              task_id = annotation annotation_restore_task_id sts;
              namespace = req.namespace;
              name = req.name;
            }
            ∷ []
      ]
      else []

  abbrev pub claims : NamespacedName → W → List SetTask
  claims req w = elim (k.get_sts req w) [
    | err e ↦ []
    | ok sts ↦ elim (sts.replicas) [
      | none ↦ []
      | some n ↦ if eqb sts.ready_replicas n then marks req sts w else []
    ]
  ]

  pub data SetMove (p p' : Workers W) : Type 0 where
    -- `StartWorker` with `context.Background()`, and with the context of the start hook
    start : p' ≡ record p { loops = suc p.loops } → SetMove p p'
    start_hooked : p' ≡ record p { loops = suc p.loops; hooked = suc p.hooked } → SetMove p p'
    -- `Reconcile`
    call :
        (req : NamespacedName) (o : SetOutcome) (s : SetState W)
        → reconcile_set k req p.state ≡ (o, s)
        → p' ≡ record p {
          state = s;
          sending = p.sending ++ in_hand o;
          claimed = p.claimed ++ claims req p.state.world;
        }
        → SetMove p p'
    -- the send, once there is room
    send :
        (before : List SetTask) (t : SetTask) (after : List SetTask)
        → length p.state.task_queue < 100
        → p.sending ≡ before ++ (t ∷ after)
        → p' ≡ record p {
          sending = before ++ after;
          state = record (p.state) { task_queue = p.state.task_queue ++ (t ∷ []) };
        }
        → SetMove p p'
    -- `RestoreTask := <-r.taskQueue`, by a loop that is at work on no entry
    receive :
        (t : SetTask) (rest : List SetTask)
        → length p.held < p.loops
        → p.state.task_queue ≡ t ∷ rest
        → p'
          ≡ record p { state = record (p.state) { task_queue = rest }; held = p.held ++ (t ∷ []) }
        → SetMove p p'
    -- the rest of the case
    work :
        (before : List SetTask) (t : SetTask) (after : List SetTask)
        → p.held ≡ before ++ (t ∷ after)
        → p' ≡ record p {
          held = before ++ after;
          done = p.done ++ (t ∷ []);
          state = record (p.state) { world = work_set k (restore_set t) t p.state.world };
        }
        → SetMove p p'
    -- `<-ctx.Done()`, in a loop whose context ends; which loop is at work is not kept, so this step
    -- needs only some loop that is not
    leave :
        (m n : ℕ)
        → length p.held < p.loops
        → p.hooked ≡ suc m
        → p.loops ≡ suc n
        → p' ≡ record p { loops = n; hooked = m }
        → SetMove p p'
    -- what others do to the cluster
    others :
        (f : W → W)
        → p' ≡ record p { state = record (p.state) { world = f p.state.world } }
        → SetMove p p'

  -- The steps of the loops, and those of calls of `Reconcile` that wait: not a new loop, nor a new call,
  -- nor what others do.
  unfoldable pub is_own : {p p' : Workers W} → SetMove p p' → Bool
  is_own (start e) = false
  is_own (start_hooked e) = false
  is_own (call req o s r e) = false
  is_own (send xs t ys room w e) = true
  is_own (receive t rest idle q e) = true
  is_own (work xs t ys h e) = true
  is_own (leave m n idle a l e) = false
  is_own (others f e) = false

  -- Runs of such steps alone.
  pub data OwnReach (p : Workers W) : Workers W → Type 0 where
    own_here : OwnReach p p
    own_next : {q r : Workers W} → OwnReach p q → (m : SetMove q r) → is_own m ≡ true → OwnReach p r

  pub data SetReach (p : Workers W) : Workers W → Type 0 where
    here : SetReach p p
    next : {q r : Workers W} → SetReach p q → SetMove q r → SetReach p r
