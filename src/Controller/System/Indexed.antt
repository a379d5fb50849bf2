-- ===== src/Controller/System/Indexed.antt =====
-- Entries with an index, on which `restoreIndices` does not panic, and the work that is left in a state.
use es_snapshot_restore.Base.{
  ℤ, ℕ, ◌+◌, ◌*◌, ◌≡◌, ◌≢◌, refl, List, [], ◌∷◌, ◌++◌, length, ◌⊎◌, inl, inr, Option, none, some,
  Error, String, Result, ok, err, Option-cases,
}
use es_snapshot_restore.Db.{Task, Database}
use es_snapshot_restore.Elastic.{Search, restore}
use es_snapshot_restore.Controller.{Queued}
use es_snapshot_restore.Controller.Restore.{finished, panicked, task_query}
use es_snapshot_restore.Controller.System.Begin.{
  Begun, ended, polling, begin_run, begin_rows, begin_restore,
}
use es_snapshot_restore.Controller.System.{Phase, begun, waiting, over, System}

abbrev pub EntriesIndexed : List Queued → Type 0
EntriesIndexed [] = Unit {0}
EntriesIndexed (q ∷ qs) = (q.index ≢ []) × EntriesIndexed qs

pub EntriesIndexed-append :
    (qs : List Queued) (q : Queued)
    → EntriesIndexed qs
    → q.index ≢ []
    → EntriesIndexed (qs ++ (q ∷ []))
EntriesIndexed-append [] q h i = (i, tt)
EntriesIndexed-append (x ∷ qs) q (j, h) i = (j, EntriesIndexed-append qs q h i)

module _ {T : Type 0} where
  -- Of the goroutines, those that are before `restoreIndices`.
  abbrev pub RunningIndexed : List (Queued × Phase T) → Type 0
  RunningIndexed [] = Unit {0}
  RunningIndexed ((q, begun) ∷ qs) = (q.index ≢ []) × RunningIndexed qs
  RunningIndexed ((q, waiting rows t) ∷ qs) = RunningIndexed qs
  RunningIndexed ((q, over e) ∷ qs) = RunningIndexed qs

  -- The steps that are left to the goroutines.
  abbrev pub running_work : List (Queued × Phase T) → ℕ
  running_work [] = 0
  running_work ((q, begun) ∷ qs) = 3 + running_work qs
  running_work ((q, waiting rows t) ∷ qs) = 2 + running_work qs
  running_work ((q, over e) ∷ qs) = 1 + running_work qs

module _ {T W : Type 0} where
  -- No entry in flight is without an index; `restoreIndices` panics on such an entry.
  pub record IsIndexed (p : System T W) : Type 0 where
    pub sending : EntriesIndexed p.sending
    pub queue : EntriesIndexed p.state.task_queue
    pub held : EntriesIndexed p.held
    pub running : RunningIndexed p.running

  -- An entry has at most six steps before it: it is sent, received and started, its restore begins,
  -- times out and is reported.
  abbrev pub system_work : System T W → ℕ
  system_work p =
      6 * length p.sending
      + 5 * length p.state.task_queue
      + 4 * length p.held
      + running_work p.running

  pub record IsIdle (p : System T W) : Type 0 where
    pub no_sending : p.sending ≡ []
    pub no_queue : p.state.task_queue ≡ []
    pub no_held : p.held ≡ []
    pub no_running : p.running ≡ []

module _ {T W : Type 0} (db : Database T W) (es : Search W) (key : String) (limit : ℤ) where
  -- It returns, or goes on to wait.
  abbrev pub Begins : Begun T → Type 0
  Begins b =
      ((e : Option Error) × (b ≡ ended (finished e)))
      ⊎ ((rows : List (Task T)) × (t : Task T) × (b ≡ polling rows t))

  begin_run-Begins :
      (rows : List (Task T)) (t : Task T) (w : W) → Begins (begin_run db es key limit rows t w).1
  unfolding begin_run
  begin_run-Begins rows t w =
      elim (Option-cases
        ((restore es t.repository t.snapshot key key t.repository (t.index ∷ []) w).1)) [
          | inl fine ↦ inr (rows, t, rw (fine, begin_run))
          | inr (x, refused) ↦ inl (some x, rw (refused, begin_run))
        ]

  begin_rows-Begins : (rows : List (Task T)) (w : W) → Begins (begin_rows db es key limit rows w).1
  unfolding begin_rows
  begin_rows-Begins [] w = inl (none, refl)
  begin_rows-Begins (t ∷ []) w = begin_run-Begins (t ∷ []) t w
  begin_rows-Begins (t ∷ u ∷ rows) w = inl (none, refl)

  pub begin_restore-Begins :
      (q : Queued) (w : W) → q.index ≢ [] → Begins (begin_restore db es key limit q w).1
  unfolding begin_restore
  begin_restore-Begins q w h = by_index (q.index) refl
    where
      by_rows :
          (r : Result (List (Task T)))
          → (let x : W × Begun T = elim r [
            | err e ↦ (w, ended (finished (some e)))
            | ok rows ↦ begin_rows db es key limit rows w
          ] in
              Begins x.1)
      by_rows (err e) = inl (some e, refl)
      by_rows (ok rows) = begin_rows-Begins rows w

      by_index :
          (index : List String)
          → q.index ≡ index
          → (let x : W × Begun T = elim index [
            | [] ↦ (w, ended panicked)
            | i ∷ more ↦ elim (db.find_tasks (task_query db es key limit q.task_id i) w) [
              | err e ↦ (w, ended (finished (some e)))
              | ok rows ↦ begin_rows db es key limit rows w
            ]
          ] in
              Begins x.1)
      by_index [] none_left = absurd (h none_left)
      by_index (i ∷ more) _ = by_rows (db.find_tasks (task_query db es key limit q.task_id i) w)
