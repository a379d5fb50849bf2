-- ===== src/Tests/Operator.antt =====
-- Calls of `Reconcile` on a stateful set that the operator owns.
use es_snapshot_restore.Base.{ℕ, ◌≡◌, arith, none, some, [], ◌∷◌, ok, refl}
use es_snapshot_restore.Api.{NamespacedName, StatefulSet}
use es_snapshot_restore.Controller.{State, Outcome, in_hand}
use es_snapshot_restore.Controller.Reconcile.{Env, reconcile}
use es_snapshot_restore.Controller.Reconcile.Operator.{IsOwned}
use es_snapshot_restore.Controller.Reconcile.Idle.{reconcile-Idles}
use es_snapshot_restore.Controller.System.{System, new_system, SystemReach, call, here, next}
use es_snapshot_restore.Controller.System.Idle.{IsUnused, SystemReach-IsUnused}
use es_snapshot_restore.Tests.Demo.{
  demo_database, demo_search, World, demo_cluster, demo_env, demo_world,
}

abbrev owned_set : StatefulSet
owned_set = record {
  name = "es-es-restore-n";
  annotations = none;
  owner_references =
      record { kind = "Elasticsearch"; api_version = "elasticsearch.k8s.elastic.co/v1" } ∷ [];
  replicas = some 1;
  ready_replicas = 1;
}

abbrev operated : Env ℕ (Unit {0}) ℕ World
operated = record demo_env { cluster = record demo_cluster { get_sts = λ k w. ok owned_set } }

abbrev at_first : State World
at_first = record { labels = some []; task_queue = []; world = demo_world }

owned : IsOwned operated
owned t w sts found = ground arith

abbrev Nothing : World → World → Type 0
Nothing w w' = w' ≡ w

abbrev request : NamespacedName
request = record { namespace = "elastic"; name = "restore-1" }

-- What a call leaves.
abbrev called : Outcome × State World
called = reconcile operated request at_first

abbrev after_call : System ℕ World
after_call = record (new_system (some []) demo_world) {
  state = called.1;
  sending = in_hand called.0;
}

after_call-Reach :
    SystemReach operated demo_database demo_search Nothing
      (new_system (some []) demo_world)
      after_call
unfolding new_system
after_call-Reach =
    next here
      (call request called.0 called.1 refl (reconcile-Idles operated at_first owned request).1 refl)

SystemReach-IsUnused_example : IsUnused after_call
SystemReach-IsUnused_example =
    SystemReach-IsUnused operated demo_database demo_search Nothing owned (some []) demo_world
      after_call after_call-Reach
