-- ===== src/Controller/Hooks.antt =====
-- `NewManager`, and the hooks of `NewRestoreReconcilerCtrl` and `RunManager`. `create` stands for the
-- library's `NewManager`, with the schemes that are added before;
-- adding them is taken to succeed. `start_worker` and `start_manager` stand
-- for what their goroutines do to the world. Both hooks report no error, and neither stops what it started.
use es_snapshot_restore.Base.{none, List, [], ◌∷◌, Result, ok, err}
use es_snapshot_restore.K8s.Client.{Scheme, client_go, elasticsearch, restore_task}
use es_snapshot_restore.Lifecycle.{Hook}

unfoldable pub reconciler_hook : {W : Type 0} → (W → W) → Hook W
reconciler_hook start_worker = record {
  on_start = λ w. (start_worker w, none);
  on_stop = λ w. (w, none);
}

unfoldable pub manager_hook : {W : Type 0} → (W → W) → Hook W
manager_hook start_manager = record {
  on_start = λ w. (start_manager w, none);
  on_stop = λ w. (w, none);
}

unfoldable pub new_manager : {M : Type 0} → (List Scheme → Result M) → Result M
new_manager create = elim (create (client_go ∷ elasticsearch ∷ restore_task ∷ [])) [
  | err e ↦ err e
  | ok m ↦ ok m
]
