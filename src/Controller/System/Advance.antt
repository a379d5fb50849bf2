-- ===== src/Controller/System/Advance.antt =====
-- The steps that are left to the reconciler when no call of `Reconcile` comes.
use mathlib.Core.List.{append_assoc}
use es_snapshot_restore.Base.{
  true, capacity, ap, ◌<◌, ◌≡◌, ◌≢◌, refl, sym, ◌∙◌, List, [], ◌∷◌, ◌++◌, length, length-append,
  arith, ◌⊎◌, inl, inr,
}
use es_snapshot_restore.Db.{Database}
use es_snapshot_restore.Elastic.{Search}
use es_snapshot_restore.Controller.{Queued}
use es_snapshot_restore.Controller.Clock.{is_positive, poll_interval}
use es_snapshot_restore.Controller.Reconcile.{Env}
use es_snapshot_restore.Controller.Restore.{finished, time_out, on_wake}
use es_snapshot_restore.Controller.Restore.Worker.{report}
use es_snapshot_restore.Controller.System.Begin.{begin_restore}
use es_snapshot_restore.Controller.System.Indexed.{
  EntriesIndexed, EntriesIndexed-append, RunningIndexed, running_work, IsIndexed, system_work,
  IsIdle, begin_restore-Begins,
}
use es_snapshot_restore.Controller.System.{
  Phase, begun, waiting, over, System, SystemMove, send, receive, acquire, begin_ends, begin_waits,
  wake, finish, after_wake, is_own,
}

-- The entries that are sent or will be, when no call comes.
abbrev pub committed : {T W : Type 0} → System T W → List Queued
committed p = p.sent ++ p.sending

module _ {Q NA T W : Type 0} (env : Env Q NA T W) (db : Database T W) (es : Search W)
    (Others : W → W → Type 0) where
  open env use {cluster as k, config as c}

  -- The ticker can be made.
  abbrev pub Ticks : Type 0
  Ticks = is_positive (poll_interval c.interval) ≡ true

  -- A step of its own that leaves less work.
  abbrev pub Advance : System T W → Type 0
  Advance p =
      (p' : System T W) × (m : SystemMove env db es Others p p') × (is_own env db es Others m
        ≡ true)
      × (system_work p' < system_work p)
      × IsIndexed p'
      × (p'.loops ≡ p.loops)
      × (committed p' ≡ committed p)

  begun-Advance :
      Ticks
      → (p : System T W) (q : Queued) (ys : List (Queued × Phase T)) → p.running ≡ (q, begun) ∷ ys
      → q.index ≢ []
      → RunningIndexed ys
      → IsIndexed p
      → Advance p
  unfolding is_own
  begun-Advance ticks p q ys er named rest i =
      elim (begin_restore-Begins db es c.restore_key c.timeout q p.state.world named) [
        | inl (e, b) ↦ (
          record p { running = (q, over e) ∷ ys; state = record (p.state) { world = w } },
          begin_ends [] q ys w e er (ap (λ x. (w, x)) b) refl,
          refl,
          omega (arith, ap running_work er),
          record { sending = i.sending; queue = i.queue; held = i.held; running = rest },
          refl,
          refl,
        )
        | inr (rows, t, b) ↦ (
          record p { running = (q, waiting rows t) ∷ ys; state = record (p.state) { world = w } },
          begin_waits [] q ys w rows t er (ap (λ x. (w, x)) b) ticks refl,
          refl,
          omega (arith, ap running_work er),
          record { sending = i.sending; queue = i.queue; held = i.held; running = rest },
          refl,
          refl,
        )
      ]
    where
      w : W
      w = (begin_restore db es c.restore_key c.timeout q p.state.world).0

  running-Advance :
      Ticks
      → (p : System T W) (q : Queued) (x : Phase T) (ys : List (Queued × Phase T))
      → p.running ≡ (q, x) ∷ ys
      → RunningIndexed ((q, x) ∷ ys)
      → IsIndexed p
      → Advance p
  unfolding on_wake is_own
  running-Advance ticks p q begun ys er (named, rest) i = begun-Advance ticks p q ys er named rest i
  running-Advance ticks p q (waiting rows t) ys er rest i =
      let (w, r) = on_wake db es c.restore_key c.timeout rows t (time_out (λ v. v)) p.state.world in
      (
        record p {
          running = (q, after_wake rows t r) ∷ ys;
          state = record (p.state) { world = w };
        },
        wake [] q ys rows t (time_out (λ v. v)) w r er (inr refl) refl refl,
        refl,
        omega (arith, ap running_work er),
        record { sending = i.sending; queue = i.queue; held = i.held; running = rest },
        refl,
        refl,
      )
  running-Advance ticks p q (over e) ys er rest i = (
    record p {
      running = ys;
      done = p.done ++ (q ∷ []);
      state = record (p.state) {
        world = (report k db es c.restore_key c.timeout q (p.state.world, finished e)).0;
      };
    },
    finish [] q ys e er refl,
    refl,
    omega (arith, ap running_work er),
    record { sending = i.sending; queue = i.queue; held = i.held; running = rest },
    refl,
    refl,
  )

  -- There is nothing left to do, or a step does some of it.
  pub next_step :
      (p : System T W) (r : List (Queued × Phase T)) (h q s : List Queued)
      → 0 < capacity c.max_tasks
      → 0 < capacity c.concurrency
      → Ticks
      → 0 < p.loops
      → p.running ≡ r
      → p.held ≡ h
      → p.state.task_queue ≡ q
      → p.sending ≡ s
      → IsIndexed p
      → IsIdle p ⊎ Advance p
  unfolding is_own
  next_step p ((t, x) ∷ ys) h q s m n ticks l er eh eq ew i =
      inr (running-Advance ticks p t x ys er (rw er at (i.running)) i)
  next_step p [] (t ∷ ys) q s m n ticks l er eh eq ew i =
      let (named, rest) : EntriesIndexed (t ∷ ys) = rw eh at (i.held) in
      inr (
        record p { held = ys; running = p.running ++ ((t, begun) ∷ []) },
        acquire [] t ys (ground (arith, ap length er)) eh refl,
        refl,
        omega (
          arith,
          ap length eh,
          ap running_work er,
          ap (λ r. running_work (r ++ ((t, begun) ∷ []))) er,
        ),
        record { sending = i.sending; queue = i.queue; held = rest; running = rw er (named, tt) },
        refl,
        refl,
      )
  next_step p [] [] (t ∷ ys) s m n ticks l er eh eq ew i =
      let (named, rest) : EntriesIndexed (t ∷ ys) = rw eq at (i.queue) in
      inr (
        record p { state = record (p.state) { task_queue = ys }; held = p.held ++ (t ∷ []) },
        receive t ys (ground (arith, ap length eh)) eq refl,
        refl,
        omega (arith, ap length eh, ap length eq, length-append p.held (t ∷ [])),
        record {
          sending = i.sending;
          queue = rest;
          held = EntriesIndexed-append p.held t i.held named;
          running = i.running;
        },
        refl,
        refl,
      )
  next_step p [] [] [] (t ∷ ys) m n ticks l er eh eq ew i =
      let (named, rest) : EntriesIndexed (t ∷ ys) = rw ew at (i.sending) in
      inr (
        record p {
          sending = ys;
          state = record (p.state) { task_queue = p.state.task_queue ++ (t ∷ []) };
          sent = p.sent ++ (t ∷ []);
        },
        send [] t ys (ground (arith, ap length eq)) ew refl,
        refl,
        omega (arith, ap length ew, ap length eq, length-append p.state.task_queue (t ∷ [])),
        record {
          sending = rest;
          queue = EntriesIndexed-append p.state.task_queue t i.queue named;
          held = i.held;
          running = i.running;
        },
        refl,
        append_assoc p.sent (t ∷ []) ys ∙ ap (λ x. p.sent ++ x) (sym ew),
      )
  next_step p [] [] [] [] m n ticks l er eh eq ew i =
      inl (record { no_sending = ew; no_queue = eq; no_held = eh; no_running = er })
