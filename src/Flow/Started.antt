-- ===== src/Flow/Started.antt =====
-- A task that is made by `NewTask`, and the node that `CreateRestoreNode` makes for it.
use es_snapshot_restore.Base.{
  ℕ, String, ◌≡◌, refl, ap, ◌∙◌, none, some, List, [], ◌∷◌, ◌++◌, ◌==◌, if◌then◌else◌, ok, eq_iff,
  arith, Bool-cases, inl, inr,
}
use es_snapshot_restore.Api.{Quantities, Cluster}
use es_snapshot_restore.Utils.{pending, status_text}
use es_snapshot_restore.Db.{Task, Database, query_all}
use es_snapshot_restore.K8s.{EsConfig}
use es_snapshot_restore.Http.Nodes.{Server}
use es_snapshot_restore.Http.Requests.{CreateRestoreNodeRequest}
use es_snapshot_restore.Http.Handlers.{
  reply, task_created, empty_task, new_task, create_for_task, create_for_rows, create_restore_node,
}

-- The rows of one task, in order.
abbrev pub rows_with : {T : Type 0} → String → List (Task T) → List (Task T)
rows_with id [] = []
rows_with id (t ∷ ts) = if t.task_id == id then t ∷ rows_with id ts else rows_with id ts

rows_with-append :
    {T : Type 0} (id : String) (xs ys : List (Task T))
    → rows_with id (xs ++ ys) ≡ rows_with id xs ++ rows_with id ys
rows_with-append id [] ys = refl
rows_with-append id (x ∷ xs) ys = elim (Bool-cases (x.task_id == id)) [
  | inl same ↦ rw same (ap (λ u. x ∷ u) (rows_with-append id xs ys))
  | inr other ↦ rw other (rows_with-append id xs ys)
]

-- What is assumed of the table of tasks: a query by task finds the rows of the task, and `Create` of
-- one row appends it, under an id that the table draws.
pub record TaskTable {T W : Type 0} (db : Database T W) : Type 0 where
  pub tasks : W → List (Task T)
  pub selects :
      (id : String) (w : W)
      → db.find_tasks (query_all "" 0 ("task_id = ?" ∷ id ∷ [])) w ≡ ok (rows_with id (tasks w))
  pub creates :
      (row : Task T) (w w' : W)
      → db.create_tasks (row ∷ []) w ≡ (w', none)
      → (id : ℕ) × (tasks w' ≡ tasks w ++ (record row { id = id } ∷ []))

module _ {F Q NA T W : Type 0} (q : Quantities Q) (k : Cluster Q NA T W) (db : Database T W)
    (c : EsConfig F NA) where
  -- The row that `NewTask` creates, as the table stores it.
  abbrev pub made_row : String → Server W → ℕ → Task T
  made_row id s n = record (empty_task q k db c) {
    id = n;
    task_id = id;
    status = status_text pending;
    started_at = some (k.now s.world);
  }

  new_task-created :
      (id : String) (s : Server W)
      → (new_task q k db c id s).replies ≡ reply 200 (task_created id) ∷ []
      → db.create_tasks (made_row id s 0 ∷ []) s.world
        ≡ ((new_task q k db c id s).server.world, none)
  unfolding new_task
  new_task-created id s answered = ground arith

  -- On a table that appends what is created and finds what has the task's id: if `NewTask` has answered
  -- that it made a task, of which the table had no row before, then a request for a node of that task
  -- finds its row, which is pending, and goes on with it.
  pub new_task-create_restore_node :
      (table : TaskTable db) (s : Server W) (r : CreateRestoreNodeRequest)
      → rows_with r.task_id (table.tasks s.world) ≡ []
      → (new_task q k db c r.task_id s).replies ≡ reply 200 (task_created r.task_id) ∷ []
      → let s' = (new_task q k db c r.task_id s).server in
        (n : ℕ) × (create_restore_node q k db c "application/json" (ok r) s'
          ≡ create_for_task q k db c (made_row r.task_id s n) r s')
  unfolding create_restore_node create_for_rows
  new_task-create_restore_node table s r fresh answered =
      let s' = (new_task q k db c r.task_id s).server in
      let (n, appended) =
        table.creates (made_row r.task_id s 0) s.world s'.world
          (new_task-created r.task_id s answered) in
      let own : rows_with r.task_id (made_row r.task_id s n ∷ []) ≡ made_row r.task_id s n ∷ [] =
        rw ((eq_iff r.task_id r.task_id).1 refl) refl in
      let rows : rows_with r.task_id (table.tasks s'.world) ≡ made_row r.task_id s n ∷ [] =
        ap (rows_with r.task_id) appended
        ∙ rows_with-append r.task_id (table.tasks s.world) _
        ∙ ap (λ x. x ++ rows_with r.task_id (made_row r.task_id s n ∷ [])) fresh
        ∙ own in
      (n, ap (λ x. create_for_rows q k db c r x s') (table.selects r.task_id s'.world ∙ ap ok rows))
