-- ===== src/Tests/Repeats.antt =====
-- Two requests for nodes of one name, and a removal, on the small cluster.
use es_snapshot_restore.Base.{ℕ, suc, ◌≡◌, refl, some, [], ok, arith}
use es_snapshot_restore.Api.{Elasticsearch}
use es_snapshot_restore.K8s.{new_es_node_set}
use es_snapshot_restore.Http.Nodes.{
  Server, new_restore_es_node, append_node, get_elasticsearch, delete_from, delete_restore_es_node,
}
use es_snapshot_restore.Http.Nodes.Laws.{times, others}
use es_snapshot_restore.Http.Nodes.Removal.{PatchStoresEs}
use es_snapshot_restore.Http.Requests.{CreateRestoreNodeRequest}
use es_snapshot_restore.Http.Handlers.{
  Handled, node_created, create_restore_node, create_for_rows, create_for_task, to_running,
  node_answer,
}
use es_snapshot_restore.Flow.Repeated.{UpdateKeepsEs, create_restore_node-repeats}
use es_snapshot_restore.Tests.Demo.{
  World, demo_quantities, demo_cluster, demo_database, demo_config, demo_world,
}

abbrev small_node : CreateRestoreNodeRequest
small_node = record { task_id = "t-1"; name = "restore-n"; size = "5gb" }

abbrev large_node : CreateRestoreNodeRequest
large_node = record { task_id = "t-1"; name = "restore-n"; size = "7gb" }

abbrev server : Server World
server = record { labels = some []; world = demo_world }

abbrev node_for : CreateRestoreNodeRequest → Server World → Handled ℕ World
node_for r =
    create_restore_node demo_quantities demo_cluster demo_database demo_config "application/json"
      (ok r)

abbrev first : Handled ℕ World
first = node_for small_node server

abbrev second : Handled ℕ World
second = node_for large_node first.server

abbrev cleared : Server World
cleared =
    (delete_restore_es_node demo_quantities demo_cluster demo_config "restore-n" second.server).0

stores : PatchStoresEs demo_quantities demo_cluster demo_config
stores key old new w w' found patched = ground arith

keeps : UpdateKeepsEs demo_quantities demo_cluster demo_database demo_config
keeps ts change key w = refl

create_restore_node-repeats_example :
    ((es₂ : Elasticsearch ℕ (Unit {0})) × (get_elasticsearch demo_quantities demo_cluster
          demo_config second.server.world
        ≡ ok es₂)
      × (times "restore-n" es₂.node_sets
          ≡ suc (suc (times "restore-n" demo_world.search.node_sets))))
    × (get_elasticsearch demo_quantities demo_cluster demo_config cleared.world
        ≡ ok (record (demo_world.search) {
          node_sets = others "restore-n" demo_world.search.node_sets;
        }))
unfolding create_restore_node create_for_rows create_for_task to_running node_answer
    new_restore_es_node append_node get_elasticsearch new_es_node_set delete_from
    delete_restore_es_node
create_restore_node-repeats_example =
    create_restore_node-repeats demo_quantities demo_cluster demo_database demo_config stores keeps
      "application/json" small_node large_node (node_created "restore-n" "5gb" "t-1")
      (node_created "restore-n" "7gb" "t-1") server cleared demo_world.search first second refl refl
      refl refl refl refl refl
