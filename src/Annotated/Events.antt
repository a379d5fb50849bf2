-- ===== src/Annotated/Events.antt =====
-- internal/controller/controller.go, `SetupWithManager`, `NewManager` and the hooks of
-- `NewRestoreReconcilerCtrl` and `RunManager`. `create` stands for the library's `NewManager`, whose
-- cache is given the one namespace; `start_worker` and `start_manager` for what their goroutines do.
use es_snapshot_restore.Base.{String, Bool, false, Option, none, List, [], ◌∷◌, Result, ok, err}
use es_snapshot_restore.Api.{StatefulSet}
use es_snapshot_restore.Lifecycle.{Hook}
use es_snapshot_restore.Annotated.{filter_create, filter_update}

-- An event on a stateful set; the object of a creation may be of another type.
pub data SetEvent : Type 0 where
  created : Option StatefulSet → SetEvent
  updated : StatefulSet → StatefulSet → SetEvent
  deleted generic : SetEvent

-- The predicate that is given to `WithEventFilter`: whether an event leads to a call of `Reconcile`.
unfoldable pub passes : String → SetEvent → Bool
unfolding filter_create filter_update
passes key (created o) = filter_create key o
passes key (updated old new) = filter_update key old new
passes key deleted = false
passes key generic = false

unfoldable pub new_set_manager : {M : Type 0} → (List String → Result M) → String → Result M
new_set_manager create namespace = elim (create (namespace ∷ [])) [ err e ↦ err e | ok m ↦ ok m ]

unfoldable pub set_worker_hook : {W : Type 0} → (W → W) → Hook W
set_worker_hook start_worker = record {
  on_start = λ w. (start_worker w, none);
  on_stop = λ w. (w, none);
}

unfoldable pub set_manager_hook : {W : Type 0} → (W → W) → Hook W
set_manager_hook start_manager = record {
  on_start = λ w. (start_manager w, none);
  on_stop = λ w. (w, none);
}
