-- ===== src/Tests/Flow.antt =====
-- The properties of the routes, of node sets that come and go, and of new tasks, at concrete
-- inputs.
use es_snapshot_restore.Base.{
  ℕ, String, ◌+◌, ◌≡◌, refl, arith, none, some, Option, List, [], ◌∷◌, ◌++◌, ok, length,
}
use es_snapshot_restore.Db.{Task, Database, query_all}
use es_snapshot_restore.K8s.{new_es_node_set}
use es_snapshot_restore.Http.Nodes.{
  Server, returned, get_elasticsearch, append_node, new_restore_es_node, delete_from,
  delete_restore_es_node,
}
use es_snapshot_restore.Http.Nodes.Removal.{
  PatchStoresEs, delete_restore_es_node-new_restore_es_node,
}
use es_snapshot_restore.Http.Handlers.Routes.{debug, Request, serve}
use es_snapshot_restore.Http.Handlers.Routes.Answers.{may_answer_twice, Answered, serve-Answered}
use es_snapshot_restore.Http.Requests.{CreateRestoreNodeRequest}
use es_snapshot_restore.Http.Handlers.{
  reply, task_created, new_task, create_restore_node, create_for_task,
}
use es_snapshot_restore.Flow.Started.{rows_with, TaskTable, made_row, new_task-create_restore_node}
use es_snapshot_restore.Tests.Demo.{
  World, demo_float, demo_quantities, demo_cluster, demo_database, demo_config, demo_world,
}

abbrev server : Server World
server = record { labels = some []; world = demo_world }

abbrev request : Request
request = record {
  content_type = "application/json";
  query_span = ok (record { name = []; start_at = ""; end_at = "" });
  body_span = ok (record { name = []; node = ""; start_at = ""; end_at = "" });
  body_node = ok (record { task_id = "t-1"; name = "restore-n"; size = "5gb" });
  body_name = ok (record { name = "restore-n" });
  drawn_id = "t-2";
}

serve-Answered_example :
    Answered
      (may_answer_twice debug)
      (serve demo_float demo_quantities demo_cluster demo_database demo_config debug request server)
serve-Answered_example =
    serve-Answered demo_float demo_quantities demo_cluster demo_database demo_config debug request
      server

stores : PatchStoresEs demo_quantities demo_cluster demo_config
stores key old new w w' found patched = ground arith

abbrev added : Server World
added = (new_restore_es_node demo_quantities demo_cluster demo_config "restore-n" "5gb" server).0

adds :
    new_restore_es_node demo_quantities demo_cluster demo_config "restore-n" "5gb" server
    ≡ (added, returned none)
unfolding new_restore_es_node append_node get_elasticsearch new_es_node_set
adds = refl

abbrev removed : Server World
removed = (delete_restore_es_node demo_quantities demo_cluster demo_config "restore-n" added).0

removes :
    delete_restore_es_node demo_quantities demo_cluster demo_config "restore-n" added
    ≡ (removed, returned none)
unfolding new_restore_es_node append_node get_elasticsearch new_es_node_set delete_restore_es_node
    delete_from
removes = refl

finds : get_elasticsearch demo_quantities demo_cluster demo_config demo_world ≡ ok demo_world.search
unfolding get_elasticsearch
finds = refl

delete_restore_es_node_example :
    get_elasticsearch demo_quantities demo_cluster demo_config removed.world ≡ ok demo_world.search
delete_restore_es_node_example =
    delete_restore_es_node-new_restore_es_node demo_quantities demo_cluster demo_config stores
      "restore-n" "5gb" demo_world.search server added removed finds refl adds removes

-- A table that is queried by task and index.
abbrev select : Option (String × List String) → List (Task ℕ) → List (Task ℕ)
select (some (text, id ∷ [])) ts = rows_with id ts
select _ ts = ts

abbrev numbered : ℕ → List (Task ℕ) → List (Task ℕ)
numbered n [] = []
numbered n (t ∷ ts) = record t { id = n } ∷ numbered (n + 1) ts

abbrev database : Database ℕ World
database = record demo_database {
  find_tasks = λ st w. ok (select st.where_ w.rows);
  create_tasks = λ ts w. (record w { rows = w.rows ++ numbered (length w.rows) ts }, none);
}

appends :
    (row : Task ℕ) (w w' : World)
    → database.create_tasks (row ∷ []) w ≡ (w', none)
    → w'.rows ≡ w.rows ++ (record row { id = length w.rows } ∷ [])
appends row w w' h = ground arith

selects_task :
    (id : String) (w : World)
    → database.find_tasks (query_all "" 0 ("task_id = ?" ∷ id ∷ [])) w ≡ ok (rows_with id w.rows)
unfolding query_all
selects_task id w = refl

abbrev task_table : TaskTable database
task_table = record {
  tasks = λ w. w.rows;
  selects = selects_task;
  creates = λ row w w' h. (length w.rows, appends row w w' h);
}

abbrev wanted : CreateRestoreNodeRequest
wanted = record { task_id = "t-2"; name = "restore-n"; size = "5gb" }

made :
    (new_task demo_quantities demo_cluster database demo_config "t-2" server).replies
    ≡ reply 200 (task_created "t-2") ∷ []
unfolding new_task
made = refl

new_task-create_restore_node_example :
    let s' = (new_task demo_quantities demo_cluster database demo_config "t-2" server).server in
    (n : ℕ) × (create_restore_node demo_quantities demo_cluster database demo_config
        "application/json"
        (ok wanted)
        s'
      ≡ create_for_task demo_quantities demo_cluster database demo_config
          (made_row demo_quantities demo_cluster database demo_config "t-2" server n)
          wanted
          s')
new_task-create_restore_node_example =
    new_task-create_restore_node demo_quantities demo_cluster database demo_config task_table server
      wanted refl made
