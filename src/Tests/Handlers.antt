-- ===== src/Tests/Handlers.antt =====
-- The properties of the handlers and of their queries at concrete inputs.
use es_snapshot_restore.Base.{
  ℕ, String, ◌≡◌, refl, some, List, [], ◌∷◌, ◌++◌, not, ok, if◌then◌else◌, is_nil,
}
use es_snapshot_restore.K8s.{lookup, new_es_node_set}
use es_snapshot_restore.Http.Latest.{
  query_latest_snapshots_via_index, latest, query_latest_snapshots_lem,
}
use es_snapshot_restore.Http.Nodes.{Server, new_restore_es_node, append_node, get_elasticsearch}
use es_snapshot_restore.Http.Requests.{CreateRestoreNodeRequest}
use es_snapshot_restore.Http.Handlers.{
  Reply, reply, both_lists, success_list, node_created, create_restore_node, create_for_rows,
  create_for_task, to_running, node_answer,
}
use es_snapshot_restore.Http.Handlers.Replies.{IsCreated, create_restore_node-ok}
use es_snapshot_restore.Http.Handlers.Restore.{RestoreViaCr, restore_all}
use es_snapshot_restore.Http.Handlers.Restore.Accounts.{
  those, fates, has_row, is_made, restore_all_replies,
}
use es_snapshot_restore.Tests.Demo.{
  World, demo_quantities, demo_cluster, demo_database, demo_config, demo_world,
}

abbrev asked_for : String → RestoreViaCr
asked_for id = record {
  task_id = id;
  index = "logs";
  repository = "s3";
  snapshot = "snap";
  store_size = "5gb";
}

-- The first is restored, the second gets a row and no resource, the third gets no row.
abbrev three : List RestoreViaCr
three = asked_for "t-1" ∷ asked_for "t-busy" ∷ asked_for "t-full" ∷ []

restore_all_replies_example :
    let outcomes =
      fates demo_cluster demo_database demo_config "restore-n" (λ _. "x") 0 three demo_world in
    let unfinished = those (λ y. not (is_made y)) outcomes in
    (rs : List (Reply ℕ)) × ((restore_all demo_cluster demo_database demo_config "restore-n"
        (λ _. "x")
        three
        demo_world).0
      ≡ rs
        ++ (if is_nil unfinished
            then reply 200 (success_list (those has_row outcomes)) ∷ []
            else reply 500 (both_lists (those has_row outcomes) unfinished)
              ∷ reply 200 (success_list (those has_row outcomes))
              ∷ []))
restore_all_replies_example =
    restore_all_replies demo_cluster demo_database demo_config "restore-n" (λ _. "x") three
      demo_world

query_latest_snapshots_example :
    lookup "logs" (query_latest_snapshots_via_index demo_database demo_world.indices demo_world)
    ≡ latest demo_database "logs" demo_world
query_latest_snapshots_example =
    query_latest_snapshots_lem demo_database demo_world.indices demo_world "logs"

abbrev wanted : CreateRestoreNodeRequest
wanted = record { task_id = "t-1"; name = "restore-n"; size = "5gb" }

abbrev server : Server World
server = record { labels = some []; world = demo_world }

creates :
    (create_restore_node demo_quantities demo_cluster demo_database demo_config "application/json"
      (ok wanted)
      server).replies
    ≡ reply 200 (node_created "restore-n" "5gb" "t-1") ∷ []
unfolding create_restore_node create_for_rows create_for_task to_running node_answer
    new_restore_es_node append_node get_elasticsearch new_es_node_set
creates = refl

create_restore_node-ok_example :
    (r : CreateRestoreNodeRequest) × (ok wanted ≡ ok r)
    × IsCreated demo_quantities demo_cluster demo_database demo_config r server (
        create_restore_node demo_quantities demo_cluster demo_database demo_config
          "application/json"
          (ok wanted)
          server)
create_restore_node-ok_example =
    create_restore_node-ok demo_quantities demo_cluster demo_database demo_config "application/json"
      (ok wanted) server (node_created "restore-n" "5gb" "t-1") creates
