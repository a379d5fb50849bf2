-- ===== src/Controller/Wiring.antt =====
-- `SetupWithManager`, and `NewRestoreReconcilerCtrl` and `RunManager` with all that they do. `complete`
-- stands for `Complete` of controller-runtime's builder on a manager.
use es_snapshot_restore.Base.{Option, some, Error, List, [], ◌∷◌, ◌++◌}
use es_snapshot_restore.Lifecycle.{Hook, Registration}
use es_snapshot_restore.Controller.Hooks.{reconciler_hook, manager_hook}

-- `predicate.GenerationChangedPredicate`, of the library.
pub data EventFilter : Type 0 where
  generation_changed : EventFilter

unfoldable pub registration : Registration EventFilter
registration = record {
  for_kind = "RestoreTask";
  event_filters = generation_changed ∷ [];
  named = some "restoretask";
}

module _ {M W : Type 0} (complete : M → Registration EventFilter → W → W × Option Error) where
  unfoldable pub setup_with_manager : M → W → W × Option Error
  unfolding registration
  setup_with_manager mgr w = complete mgr registration w

  -- What the world and the hooks of `lc` become. The error of `SetupWithManager` is dropped.
  unfoldable pub new_restore_reconciler_ctrl : (W → W) → M → W × List (Hook W) → W × List (Hook W)
  unfolding setup_with_manager reconciler_hook
  new_restore_reconciler_ctrl start_worker mgr (w, lc) =
      let set_up = setup_with_manager mgr (start_worker w) in
      (set_up.0, lc ++ (reconciler_hook start_worker ∷ []))

unfoldable pub run_manager : {W : Type 0} → (W → W) → List (Hook W) → List (Hook W)
unfolding manager_hook
run_manager start_manager lc = lc ++ (manager_hook start_manager ∷ [])
