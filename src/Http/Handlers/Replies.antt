-- ===== src/Http/Handlers/Replies.antt =====
-- How often the handlers answer, and what a success of `CreateRestoreNode` stands for.
use es_snapshot_restore.Base.{
  String, ◌≡◌, refl, true, false, none, some, List, [], ◌∷◌, ◌⊎◌, inl, inr, ◌==◌, Error, Result, ok,
  err, arith, Option-cases, Bool-cases,
}
use es_snapshot_restore.Api.{Quantities, Cluster}
use es_snapshot_restore.Db.{Task, Database, query_all}
use es_snapshot_restore.K8s.{EsConfig}
use es_snapshot_restore.Http.Nodes.{Server, Call, returned, panicked, new_restore_es_node}
use es_snapshot_restore.Http.Requests.{CreateRestoreNodeRequest}
use es_snapshot_restore.Http.Handlers.{
  Handled, Reply, reply, Body, bad_request, update_failed, node_failed, to_running, to_failed,
  node_error, node_answer, create_for_task, create_for_rows, create_restore_node, done,
}

module _ {F Q NA T W : Type 0} (q : Quantities Q) (k : Cluster Q NA T W) (db : Database T W)
    (c : EsConfig F NA) where
  open db use {find_tasks}

  -- The row is RUNNING in the world in which the node set was added.
  abbrev pub IsCreated : CreateRestoreNodeRequest → Server W → Handled T W → Type 0
  IsCreated r s h =
      (t : Task T) × (w : W) × (find_tasks (query_all "" 0 ("task_id = ?" ∷ r.task_id ∷ [])) s.world
        ≡ ok (t ∷ []))
      × (to_running q k db c t s.world ≡ (w, none))
      × (new_restore_es_node q k c r.name r.size (record s { world = w })
          ≡ (h.server, returned none))

  node_answer-ok :
      (t : Task T) (r : CreateRestoreNodeRequest) (x : Server W × Call) (b : Body T)
      → (node_answer q k db c t r x).replies ≡ reply 200 b ∷ []
      → x ≡ ((node_answer q k db c t r x).server, returned none)
  unfolding node_answer node_error
  node_answer-ok t r (s, panicked) b h = ground arith
  node_answer-ok t r (s, returned none) b h = refl
  node_answer-ok t r (s, returned (some e)) b h = ground arith

  create_for_rows-ok :
      (r : CreateRestoreNodeRequest) (rows : Result (List (Task T))) (s : Server W) (b : Body T)
      → let h = create_for_rows q k db c r rows s in
        h.replies ≡ reply 200 b ∷ []
        → (t : Task T) × (w : W) × (rows ≡ ok (t ∷ []))
          × (to_running q k db c t s.world ≡ (w, none))
          × (new_restore_es_node q k c r.name r.size (record s { world = w })
              ≡ (h.server, returned none))
  unfolding create_for_rows create_for_task
  create_for_rows-ok r (err e) s b h = absurd (ground arith)
  create_for_rows-ok r (ok []) s b h = absurd (ground arith)
  create_for_rows-ok r (ok (t ∷ u ∷ ts)) s b h = absurd (ground arith)
  create_for_rows-ok r (ok (t ∷ [])) s b h =
      let w = (to_running q k db c t s.world).0 in
      (
        t,
        w,
        refl,
        ground arith,
        ground (
          arith,
          node_answer-ok t r (new_restore_es_node q k c r.name r.size (record s { world = w })) b,
        ),
      )

  -- The handler answers 200 only after the single row of the task was set to RUNNING and the node
  -- set was added.
  pub create_restore_node-ok :
      (content_type : String) (bound : Result CreateRestoreNodeRequest) (s : Server W) (b : Body T)
      → (create_restore_node q k db c content_type bound s).replies ≡ reply 200 b ∷ []
      → (r : CreateRestoreNodeRequest) × (bound ≡ ok r)
        × IsCreated r s (create_restore_node q k db c content_type bound s)
  unfolding create_restore_node
  create_restore_node-ok content_type (err e) s b h = absurd (ground arith)
  create_restore_node-ok content_type (ok r) s b h =
      let json : (content_type == "application/json") ≡ true = ground arith in
      (r, refl, rw json (create_for_rows-ok r _ s b (rw json at h)))

  -- A panic without an answer; one answer; or, for the request `r`, the two of a double failure.
  abbrev pub Replied : (CreateRestoreNodeRequest → Type 0) → Handled T W → Type 0
  Replied R h =
      ((h.panic ≡ true) × (h.replies ≡ []))
      ⊎ ((h.panic ≡ false)
          × (((x : Reply T) × (h.replies ≡ x ∷ []))
              ⊎ ((r : CreateRestoreNodeRequest) × (e : Error) × (d : Error) × R r
                  × (h.replies
                      ≡ reply 500 (update_failed r.task_id d)
                        ∷ reply 500 (node_failed r.name r.size e)
                        ∷ []))))

  abbrev Bound : CreateRestoreNodeRequest → CreateRestoreNodeRequest → Type 0
  Bound r r' = ◌≡◌ {A = Result CreateRestoreNodeRequest} (ok r) (ok r')

  node_error-Replied :
      (t : Task T) (r : CreateRestoreNodeRequest) (e : Error) (s : Server W)
      → Replied (Bound r) (node_error q k db c t r e s)
  unfolding node_error
  node_error-Replied t r e s = elim (Option-cases ((to_failed q k db c t s.world).1)) [
    | inl fine ↦ inr (ground arith, inl (reply 500 (node_failed r.name r.size e), ground arith))
    | inr (d, failed) ↦ inr (ground arith, inr (r, e, d, refl, ground arith))
  ]

  node_answer-Replied :
      (t : Task T) (r : CreateRestoreNodeRequest) (x : Server W × Call)
      → Replied (Bound r) (node_answer q k db c t r x)
  unfolding node_answer
  node_answer-Replied t r (s, panicked) = inl (refl, refl)
  node_answer-Replied t r (s, returned none) = inr (refl, inl (_, refl))
  node_answer-Replied t r (s, returned (some e)) = node_error-Replied t r e s

  create_for_task-Replied :
      (t : Task T) (r : CreateRestoreNodeRequest) (s : Server W)
      → Replied (Bound r) (create_for_task q k db c t r s)
  unfolding create_for_task
  create_for_task-Replied t r s = elim (Option-cases ((to_running q k db c t s.world).1)) [
    | inl fine ↦ rw (fine, create_for_task) (node_answer-Replied t r _)
    | inr (x, failed) ↦
        inr (ground arith, inl (reply 500 (update_failed r.task_id x), ground arith))
  ]

  create_for_rows-Replied :
      (r : CreateRestoreNodeRequest) (rows : Result (List (Task T))) (s : Server W)
      → Replied (Bound r) (create_for_rows q k db c r rows s)
  unfolding create_for_rows
  create_for_rows-Replied r (err e) s = inr (refl, inl (_, refl))
  create_for_rows-Replied r (ok []) s = inr (refl, inl (_, refl))
  create_for_rows-Replied r (ok (t ∷ u ∷ ts)) s = inr (refl, inl (_, refl))
  create_for_rows-Replied r (ok (t ∷ [])) s = create_for_task-Replied t r s

  bound_Replied :
      (bound : Result CreateRestoreNodeRequest) (s : Server W)
      → Replied
          (λ r. bound ≡ ok r)
          (elim bound [
            | err e ↦ done s (reply 400 (bad_request e) ∷ [])
            | ok r ↦
                create_for_rows q k db c r
                  (find_tasks (query_all "" 0 ("task_id = ?" ∷ r.task_id ∷ [])) s.world)
                  s
          ])
  bound_Replied (err e) s = inr (refl, inl (_, refl))
  bound_Replied (ok r) s = create_for_rows-Replied r _ s

  -- The handler answers once, unless it panics, which leaves the answer to gin, or both the node
  -- set and the update of the row to FAILED fail, which is answered by two bodies.
  pub create_restore_node-Replied :
      (content_type : String) (bound : Result CreateRestoreNodeRequest) (s : Server W)
      → Replied (λ r. bound ≡ ok r) (create_restore_node q k db c content_type bound s)
  unfolding create_restore_node
  create_restore_node-Replied content_type bound s =
      elim (Bool-cases (content_type == "application/json")) [
        | inl json ↦ rw json (bound_Replied bound s)
        | inr other ↦ rw other (inr (refl, inl (_, refl)))
      ]
