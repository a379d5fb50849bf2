-- ===== src/K8s/Client.antt =====
-- internal/k8s/client.go, `NewClient`. `build` stands for `clientcmd.BuildConfigFromFlags` and
-- `create` for the library's `New`, with the schemes that are added before.
use es_snapshot_restore.Base.{String, List, [], ◌∷◌, Result, ok, err}

-- The types that a client may know. A failure to add a scheme is not looked at here.
pub data Scheme : Type 0 where
  client_go elasticsearch restore_task : Scheme

unfoldable pub created : {C : Type 0} → Result C → Result C
created (err e) = err e
created (ok c) = ok c

unfoldable pub new_client :
    {R C : Type 0} → (String → Result R) → (R → List Scheme → Result C) → String → Result C
unfolding created
new_client build create kube_config = elim (build kube_config) [
  | err e ↦ err e
  | ok config ↦ created (create config (elasticsearch ∷ restore_task ∷ []))
]
