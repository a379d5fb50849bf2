-- ===== src/Http/Handlers/Routes/Answers.antt =====
-- How often the registered handlers answer.
use es_snapshot_restore.Base.{
  Error, Option, String, ◌≡◌, refl, Bool, true, false, none, some, List, [], ◌∷◌, ◌⊎◌, inl, inr,
  ◌==◌, Result, ok, err, Bool-cases,
}
use es_snapshot_restore.Api.{Quantities, Cluster}
use es_snapshot_restore.Db.{EsIndex, Database}
use es_snapshot_restore.K8s.{EsConfig}
use es_snapshot_restore.Utils.Size.{Float64}
use es_snapshot_restore.Http.Nodes.{Server, Call, returned, panicked}
use es_snapshot_restore.Http.Query.{query_index_result_via_time}
use es_snapshot_restore.Http.Requests.{
  CreateRestoreNodeRequest, QueryIndexParam, RestoreSnapshotRequest, DeleteRestoreNodeRequest,
}
use es_snapshot_restore.Http.Handlers.{
  create_restore_node, Handled, Reply, query_index, matched_snapshots, restore_snapshot, new_task,
  delete_answer, delete_restore_node, debug_answer, debug_handler,
}
use es_snapshot_restore.Http.Handlers.Replies.{Replied, create_restore_node-Replied}
use es_snapshot_restore.Http.Handlers.Routes.{
  Endpoint, indices, restore, task, create_node, delete_node, debug, Request, serve,
}

-- The endpoints that may answer twice.
abbrev pub may_answer_twice : Endpoint → Bool
may_answer_twice indices = false
may_answer_twice restore = false
may_answer_twice task = false
may_answer_twice create_node = true
may_answer_twice delete_node = false
may_answer_twice debug = true

-- One reply.
abbrev pub Once : {T : Type 0} → List (Reply T) → Type 0
Once {T} rs = (x : Reply T) × (rs ≡ x ∷ [])

-- A panic with no reply; one reply; or, if `twice` allows it, two, of which the first is a 500.
abbrev pub Answered : {T W : Type 0} → Bool → Handled T W → Type 0
Answered {T} twice h =
    ((h.panic ≡ true) × (h.replies ≡ []))
    ⊎ ((h.panic ≡ false)
        × (Once h.replies
            ⊎ ((twice ≡ true)
                × ((x : Reply T) × (y : Reply T) × (x.status ≡ 500) × (h.replies ≡ x ∷ y ∷ [])))))

Result-Once :
    {A T : Type 0} (r : Result A) (refused : Error → Reply T) (rest : A → List (Reply T))
    → ((a : A) → Once (rest a))
    → Once (elim r [ err e ↦ refused e ∷ [] | ok a ↦ rest a ])
Result-Once (err e) refused rest h = (refused e, refl)
Result-Once (ok a) refused rest h = h a

Option-Once :
    {T : Type 0} (o : Option Error) (fine : Reply T) (refused : Error → Reply T)
    → Once (elim o [ none ↦ fine ∷ [] | some e ↦ refused e ∷ [] ])
Option-Once none fine refused = (fine, refl)
Option-Once (some e) fine refused = (refused e, refl)

module _ {T W : Type 0} (f : Float64) (db : Database T W) (disk_min_size : f.Float) where
  query_index-Once :
      (bound : Result QueryIndexParam) (w : W) → Once (query_index f db disk_min_size bound w)
  unfolding query_index
  query_index-Once (err e) w = (_, refl)
  query_index-Once (ok p) w =
      Result-Once (query_index_result_via_time db p.name p.start_at p.end_at w) _ _
        (λ is. (_, refl))

  matched_snapshots-Once :
      (found : Result (List (EsIndex T))) (w : W)
      → Once (matched_snapshots f db disk_min_size found w)
  unfolding matched_snapshots
  matched_snapshots-Once (err e) w = (_, refl)
  matched_snapshots-Once (ok is) w = (_, refl)

  restore_snapshot-Once :
      (content_type : String) (bound : Result RestoreSnapshotRequest) (w : W)
      → Once (restore_snapshot f db disk_min_size content_type bound w)
  unfolding restore_snapshot
  restore_snapshot-Once content_type bound w =
      elim (Bool-cases (content_type == "application/json")) [
        | inl json ↦ rw json (Result-Once bound _ _ (λ p. matched_snapshots-Once _ w))
        | inr other ↦ rw other (_, refl)
      ]

module _ {Q NA T W : Type 0} (f : Float64) (q : Quantities Q) (k : Cluster Q NA T W)
    (db : Database T W) (c : EsConfig f.Float NA) where
  new_task-Answered : (id : String) (s : Server W) → Answered false (new_task q k db c id s)
  unfolding new_task
  new_task-Answered id s = inr (refl, inl (Option-Once _ _ _))

  delete_answer-Answered :
      (name : String) (x : Server W × Call) → Answered false (delete_answer q k db c name x)
  unfolding delete_answer
  delete_answer-Answered name (s, panicked) = inl (refl, refl)
  delete_answer-Answered name (s, returned none) = inr (refl, inl (_, refl))
  delete_answer-Answered name (s, returned (some e)) = inr (refl, inl (_, refl))

  delete_restore_node-Answered :
      (bound : Result DeleteRestoreNodeRequest) (s : Server W)
      → Answered false (delete_restore_node q k db c bound s)
  unfolding delete_restore_node
  delete_restore_node-Answered (err e) s = inr (refl, inl (_, refl))
  delete_restore_node-Answered (ok r) s = delete_answer-Answered r.name _

  debug_answer-Answered : (x : Server W × Call) → Answered true (debug_answer q k db c x)
  unfolding debug_answer
  debug_answer-Answered (s, panicked) = inl (refl, refl)
  debug_answer-Answered (s, returned none) = inr (refl, inl (_, refl))
  debug_answer-Answered (s, returned (some e)) = inr (refl, inr (refl, (_, _, refl, refl)))

  Replied-Answered :
      (R : CreateRestoreNodeRequest → Type 0) (h : Handled T W)
      → Replied q k db c R h
      → Answered true h
  Replied-Answered R h (inl crash) = inl crash
  Replied-Answered R h (inr (calm, inl once)) = inr (calm, inl once)
  Replied-Answered R h (inr (calm, inr (r, e, d, _, both))) =
      inr (calm, inr (refl, (_, _, refl, both)))

  -- Every registered handler answers exactly once, except that it may panic with no answer, which is
  -- left to gin, and that the two handlers on node sets, `/node` with PUT and `/debug`, may answer a
  -- failure and then once more.
  pub serve-Answered :
      (e : Endpoint) (r : Request) (s : Server W)
      → Answered (may_answer_twice e) (serve f q k db c e r s)
  unfolding serve debug_handler
  serve-Answered indices r s = inr (refl, inl (query_index-Once f db c.disk_min_size _ _))
  serve-Answered restore r s = inr (refl, inl (restore_snapshot-Once f db c.disk_min_size _ _ _))
  serve-Answered task r s = new_task-Answered r.drawn_id s
  serve-Answered create_node r s =
      Replied-Answered (λ b. r.body_node ≡ ok b)
        (create_restore_node q k db c r.content_type r.body_node s)
        (create_restore_node-Replied q k db c r.content_type r.body_node s)
  serve-Answered delete_node r s = delete_restore_node-Answered r.body_name s
  serve-Answered debug r s = debug_answer-Answered _
