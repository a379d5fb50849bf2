-- ===== src/Controller.antt =====
-- internal/controller/controller/restoretask_controller.go. The types that the two halves share:
-- `Reconcile`, which feeds the queue, and the workers, which empty it.
pub mod Reconcile
pub mod Status
pub mod Clock
pub mod Restore
pub mod Pool
pub mod System
pub mod Filters
pub mod Hooks
pub mod Wiring
use es_snapshot_restore.Base.{ℕ, String, Option, List, [], ◌∷◌, Error, Bool}
use es_snapshot_restore.K8s.{Labels}

-- `RestoreTask` of this package: an entry of the queue.
pub record Queued : Type 0 where
  pub namespace : String
  pub name : String
  pub task_id : String
  pub index : List String

abbrev pub restore_status_pending : String
restore_status_pending = "pending"

abbrev pub restore_status_running : String
restore_status_running = "running"

abbrev pub restore_status_done : String
restore_status_done = "done"

abbrev pub restore_status_failed : String
restore_status_failed = "failed"

-- What a call of `Reconcile` can change: the shared map of labels, the queue, and the cluster.
pub record State (W : Type 0) : Type 0 where
  pub labels : Option Labels
  pub task_queue : List Queued
  pub world : W

-- How the call ends: it returns `RequeueAfter` in seconds (0 if unset) and an error; it panics; or
-- it waits for room in the queue, with the entry in hand.
pub data Outcome : Type 0 where
  returned : ℕ → Option Error → Outcome
  panicked : Outcome
  waits : Queued → Outcome

-- The entry that a call has in hand when it has to wait.
abbrev pub in_hand : Outcome → List Queued
in_hand (returned n e) = []
in_hand panicked = []
in_hand (waits t) = t ∷ []
