-- ===== src/Controller/System/Pooled.antt =====
-- The reconciler, with all but its lists of entries forgotten, is a pool.
use mathlib.Core.Path.{subst}
use mathlib.Core.List.{map-append}
use es_snapshot_restore.Base.{
  capacity, ◌<◌, ◌≡◌, refl, ap, sym, ◌∙◌, Option, List, [], ◌∷◌, ◌++◌, map, length, length-append,
  arith, ◌⊎◌, inl, inr,
}
use es_snapshot_restore.Api.{NamespacedName}
use es_snapshot_restore.K8s.{Labels}
use es_snapshot_restore.Db.{Database}
use es_snapshot_restore.Elastic.{Search}
use es_snapshot_restore.Controller.{Queued, State, Outcome}
use es_snapshot_restore.Controller.Reconcile.{Env, reconcile}
use es_snapshot_restore.Controller.Reconcile.Sends.{reconcile-Queues}
use es_snapshot_restore.Controller.Pool as Pools
use es_snapshot_restore.Controller.Pool.{Pool, new_pool, wired_pool, Reach}
use es_snapshot_restore.Controller.System.{
  Phase, begun, waiting, over, System, SystemMove, start, start_hooked, call, call_sends, send,
  receive, acquire, begin_ends, begin_waits, wake, finish, leave, others, SystemReach, here, next,
  new_system,
}

module _ {T : Type 0} where
  abbrev pub entries : List (Queued × Phase T) → List Queued
  entries = map (λ r. r.0)

  entries-append : (xs ys : List (Queued × Phase T)) → entries (xs ++ ys) ≡ entries xs ++ entries ys
  entries-append = map-append (λ r. r.0)

  entries-split :
      (before after : List (Queued × Phase T)) (t : Queued) (x : Phase T)
      (r : List (Queued × Phase T))
      → r ≡ before ++ ((t, x) ∷ after)
      → entries r ≡ entries before ++ (t ∷ entries after)
  entries-split before after t x r e = ap entries e ∙ entries-append before ((t, x) ∷ after)

  pub length-entries : (xs : List (Queued × Phase T)) → length (entries xs) ≡ length xs
  length-entries [] = refl
  length-entries (x ∷ xs) = omega (arith, length-entries xs)

  -- A step of a goroutine leaves the entries as they are.
  entries-step :
      (before after : List (Queued × Phase T)) (t : Queued) (x y : Phase T)
      (r : List (Queued × Phase T))
      → r ≡ before ++ ((t, x) ∷ after)
      → entries (before ++ ((t, y) ∷ after)) ≡ entries r
  entries-step before after t x y r e =
      entries-append before ((t, y) ∷ after) ∙ sym (entries-split before after t x r e)

module _ {T W : Type 0} where
  -- The lists of entries, without the goroutines' phases and the world.
  abbrev pub forget : System T W → Pool
  forget p = record {
    loops = p.loops;
    hooked = p.hooked;
    queue = p.state.task_queue;
    held = p.held;
    running = entries p.running;
    done = p.done;
    sent = p.sent;
  }

module _ {Q NA T W : Type 0} (env : Env Q NA T W) (db : Database T W) (es : Search W)
    (Others : W → W → Type 0) where
  open env use {config as c}

  -- No step of the pool, or one.
  abbrev Simulates : System T W → System T W → Type 0
  Simulates p p' =
      (forget p' ≡ forget p)
      ⊎ Pools.Move (capacity c.max_tasks) (capacity c.concurrency) (forget p) (forget p')

  -- A call that sends an entry had room for it.
  sends-room :
      (req : NamespacedName) (s₀ s : State W) (o : Outcome) (t : Queued)
      → reconcile env req s₀ ≡ (o, s)
      → s.task_queue ≡ s₀.task_queue ++ (t ∷ [])
      → length s₀.task_queue < capacity c.max_tasks
  sends-room req s₀ s o t called longer =
      let result = ap (λ r. r.1.task_queue) called in
      elim (reconcile-Queues env s₀ req) [
        | inl same ↦
            let kept = ap length (sym same ∙ result ∙ longer) in
            absurd (omega (arith, kept, length-append s₀.task_queue (t ∷ [])))
        | inr (_, (_, queues)) ↦ queues.room
      ]

  Move-Simulates : {p p' : System T W} → SystemMove env db es Others p p' → Simulates p p'
  Move-Simulates {p} (start e) = inr (Pools.start (ap forget e))
  Move-Simulates {p} (start_hooked e) = inr (Pools.start_hooked (ap forget e))
  Move-Simulates {p} (call req o s called same e) =
      inl (ap forget e ∙ ap (λ q. record (forget p) { queue = q }) same)
  Move-Simulates {p} (call_sends req o s t called longer e) = inr (
      Pools.send t (sends-room req p.state s o t called longer)
        (ap forget e ∙ ap (λ q. record (forget p) { queue = q; sent = p.sent ++ (t ∷ []) }) longer))
  Move-Simulates {p} (send before t after room waits e) = inr (Pools.send t room (ap forget e))
  Move-Simulates {p} (receive t rest idle q e) = inr (Pools.receive t rest idle q (ap forget e))
  Move-Simulates {p} (acquire before t after free h e) = inr (
      Pools.acquire before t after (omega (arith, free, length-entries p.running)) h (
        ap forget e
        ∙ ap (λ r. record (forget p) { held = before ++ after; running = r })
            (entries-append p.running ((t, begun) ∷ []))))
  Move-Simulates {p} (begin_ends before t after w x r begins e) = inl (
      ap forget e
      ∙ ap (λ r. record (forget p) { running = r })
          (entries-step before after t begun (over x) p.running r))
  Move-Simulates {p} (begin_waits before t after w rows row r begins ticks e) = inl (
      ap forget e
      ∙ ap (λ r. record (forget p) { running = r })
          (entries-step before after t begun (waiting rows row) p.running r))
  Move-Simulates {p} (wake before t after rows row x w a r which woken e) = inl (
      ap forget e
      ∙ ap (λ r. record (forget p) { running = r })
          (entries-step before after t (waiting rows row) _ p.running r))
  Move-Simulates {p} (finish before t after x r e) = inr (
      Pools.finish (entries before) t (entries after)
        (entries-split before after t (over x) p.running r)
        (ap forget e
          ∙ ap (λ r. record (forget p) { running = r; done = p.done ++ (t ∷ []) })
              (entries-append before after)))
  Move-Simulates {p} (leave m n idle h l e) = inr (Pools.leave m n idle h l (ap forget e))
  Move-Simulates {p} (others w o e) = inl (ap forget e)

  -- Every run of the reconciler, with its calls of `Reconcile`, the rounds of its restores and what
  -- others do to the world, is a run of the pool on its lists of entries.
  pub SystemReach-Reach :
      (labels : Option Labels) (w : W) {p : System T W}
      → SystemReach env db es Others (new_system labels w) p
      → Reach (capacity c.max_tasks) (capacity c.concurrency) wired_pool (forget p)
  unfolding new_system wired_pool new_pool
  SystemReach-Reach labels w here = Pools.here
  SystemReach-Reach labels w (next {q} r m) = elim (Move-Simulates m) [
    | inl same ↦
        subst (λ x. Reach (capacity c.max_tasks) (capacity c.concurrency) wired_pool x) (sym same)
          (SystemReach-Reach labels w r)
    | inr step ↦ Pools.next (SystemReach-Reach labels w r) step
  ]
