-- ===== src/Controller/System/Begin.antt =====
-- `restoreIndices` up to its loop, and that the loop behind it makes the whole.
use es_snapshot_restore.Base.{
  ℤ, ◌≡◌, refl, none, some, List, [], ◌∷◌, arith, ok, err, String, Result,
}
use es_snapshot_restore.Db.{Task, Database}
use es_snapshot_restore.Elastic.{Search, restore}
use es_snapshot_restore.Controller.{Queued}
use es_snapshot_restore.Controller.Restore.{
  End, finished, panicked, Wake, mark_failed, run_restore, poll, with_rows, task_query,
  restore_indices,
}

-- What the part before the loop comes to: the call ends, or it goes on to wait.
pub data Begun (T : Type 0) : Type 0 where
  ended : End → Begun T
  polling : List (Task T) → Task T → Begun T

module _ {T W : Type 0} (db : Database T W) (es : Search W) (key : String) (limit : ℤ) where
  unfoldable pub begin_run : List (Task T) → Task T → W → W × Begun T
  begin_run rows t w =
      let (w', e) = restore es t.repository t.snapshot key key t.repository (t.index ∷ []) w in
      elim e [
        | some x ↦ ((mark_failed db es key limit rows t w').0, ended (finished (some x)))
        | none ↦ (w', polling rows t)
      ]

  unfoldable pub begin_rows : List (Task T) → W → W × Begun T
  unfolding begin_run
  begin_rows (t ∷ []) w = begin_run (t ∷ []) t w
  begin_rows [] w = (w, ended (finished none))
  begin_rows (t ∷ u ∷ rows) w = (w, ended (finished none))

  unfoldable pub begin_restore : Queued → W → W × Begun T
  unfolding begin_rows
  begin_restore q w = elim (q.index) [
    | [] ↦ (w, ended panicked)
    | index ∷ more ↦ elim (db.find_tasks (task_query db es key limit q.task_id index) w) [
      | err e ↦ (w, ended (finished (some e)))
      | ok rows ↦ begin_rows rows w
    ]
  ]

  -- The loop, if there is one, over the wakings that occur.
  abbrev pub then_poll : List (Wake W) → W × Begun T → W × End
  then_poll wakes (w, ended e) = (w, e)
  then_poll wakes (w, polling rows t) = poll db es key limit rows t wakes w

  run-begin :
      (rows : List (Task T)) (t : Task T) (wakes : List (Wake W)) (w : W)
      → run_restore db es key limit rows t wakes w ≡ then_poll wakes (begin_run rows t w)
  unfolding run_restore begin_run
  run-begin rows t wakes w = ground arith

  rows-begin :
      (rows : List (Task T)) (wakes : List (Wake W)) (w : W)
      → with_rows db es key limit rows wakes w ≡ then_poll wakes (begin_rows rows w)
  unfolding with_rows begin_rows
  rows-begin [] wakes w = refl
  rows-begin (t ∷ []) wakes w = run-begin (t ∷ []) t wakes w
  rows-begin (t ∷ u ∷ rows) wakes w = refl

  -- The call is its part before the loop and then the loop.
  pub restore_indices-begin :
      (q : Queued) (wakes : List (Wake W)) (w : W)
      → restore_indices db es key limit q wakes w ≡ then_poll wakes (begin_restore q w)
  unfolding restore_indices begin_restore
  restore_indices-begin q wakes w = by_index (q.index)
    where
      by_rows :
          (r : Result (List (Task T)))
          → (elim r [
            | err e ↦ (w, finished (some e))
            | ok rows ↦ with_rows db es key limit rows wakes w
          ])
            ≡ then_poll wakes
                (elim r [ err e ↦ (w, ended (finished (some e))) | ok rows ↦ begin_rows rows w ])
      by_rows (err e) = refl
      by_rows (ok rows) = rows-begin rows wakes w

      by_index :
          (index : List String)
          → (elim index [
            | [] ↦ (w, panicked)
            | i ∷ more ↦ elim (db.find_tasks (task_query db es key limit q.task_id i) w) [
              | err e ↦ (w, finished (some e))
              | ok rows ↦ with_rows db es key limit rows wakes w
            ]
          ])
            ≡ then_poll wakes (elim index [
              | [] ↦ (w, ended panicked)
              | i ∷ more ↦ elim (db.find_tasks (task_query db es key limit q.task_id i) w) [
                | err e ↦ (w, ended (finished (some e)))
                | ok rows ↦ begin_rows rows w
              ]
            ])
      by_index [] = refl
      by_index (i ∷ more) = by_rows (db.find_tasks (task_query db es key limit q.task_id i) w)
