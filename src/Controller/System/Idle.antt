-- ===== src/Controller/System/Idle.antt =====
-- The reconciler in a cluster where the Elasticsearch operator owns the stateful sets that it creates.
use es_snapshot_restore.Base.{
  ap, sym, ◌∙◌, ◌≡◌, refl, Option, List, [], ◌∷◌, ◌++◌, length, length-append, arith,
}
use es_snapshot_restore.K8s.{Labels}
use es_snapshot_restore.Db.{Database}
use es_snapshot_restore.Elastic.{Search}
use es_snapshot_restore.Controller.{in_hand}
use es_snapshot_restore.Controller.Reconcile.{Env}
use es_snapshot_restore.Controller.Reconcile.Operator.{IsOwned}
use es_snapshot_restore.Controller.Reconcile.Idle.{reconcile-Idles}
use es_snapshot_restore.Controller.System.{
  System, new_system, SystemMove, start, start_hooked, call, call_sends, send, receive, acquire,
  begin_ends, begin_waits, wake, finish, leave, others, SystemReach, here, next,
}

-- Nothing was sent, no call waits to send, and no entry is being worked on or done.
abbrev pub IsUnused : {T W : Type 0} → System T W → Type 0
IsUnused p =
    (p.sent ≡ [])
    × (p.sending ≡ [])
    × (p.state.task_queue ≡ [])
    × (p.held ≡ [])
    × (p.running ≡ [])
    × (p.done ≡ [])

module _ {A : Type 0} where
  not_split : (r before after : List A) (x : A) → r ≡ [] → r ≡ before ++ (x ∷ after) → ⊥
  not_split r before after x e split =
      omega (arith, ap length e, ap length split, length-append before (x ∷ after))

module _ {Q NA T W : Type 0} (env : Env Q NA T W) (db : Database T W) (es : Search W)
    (Others : W → W → Type 0) where
  SystemMove-IsUnused :
      IsOwned env
      → {p p' : System T W} → SystemMove env db es Others p p'
      → IsUnused p
      → IsUnused p'
  SystemMove-IsUnused owned (start e) u = rw e u
  SystemMove-IsUnused owned (start_hooked e) u = rw e u
  SystemMove-IsUnused owned {p} (call req o s called same e)
        (sent, sending, queue, held, running, done) =
      let (no_entry, _) = reconcile-Idles env p.state owned req in
      let none_in_hand : in_hand o ≡ [] = sym (ap (λ r. in_hand r.0) called) ∙ no_entry in
      rw e (sent, rw (none_in_hand, sending), same ∙ queue, held, running, done)
  SystemMove-IsUnused owned {p} (call_sends req o s t called longer e) u =
      let (_, same) = reconcile-Idles env p.state owned req in
      absurd (
        omega (
          arith,
          ap length (sym (ap (λ r. r.1.task_queue) called) ∙ same),
          ap length longer,
          length-append p.state.task_queue (t ∷ []),
        ))
  SystemMove-IsUnused owned (send before t after room waits e) (_, sending, _, _, _, _) =
      absurd (not_split _ before after t sending waits)
  SystemMove-IsUnused owned (receive t rest idle q e) (_, _, queue, _, _, _) =
      absurd (not_split _ [] rest t queue q)
  SystemMove-IsUnused owned (acquire before t after free h e) (_, _, _, held, _, _) =
      absurd (not_split _ before after t held h)
  SystemMove-IsUnused owned (begin_ends before t after w x r begins e) (_, _, _, _, running, _) =
      absurd (not_split _ before after (t, _) running r)
  SystemMove-IsUnused owned (begin_waits before t after w rows row r begins ticks e)
        (_, _, _, _, running, _) =
      absurd (not_split _ before after (t, _) running r)
  SystemMove-IsUnused owned (wake before t after rows row x w a r which woken e)
        (_, _, _, _, running, _) =
      absurd (not_split _ before after (t, _) running r)
  SystemMove-IsUnused owned (finish before t after x r e) (_, _, _, _, running, _) =
      absurd (not_split _ before after (t, _) running r)
  SystemMove-IsUnused owned (leave m n idle a l e) u = rw e u
  SystemMove-IsUnused owned (others w o e) u = rw e u

  -- If the stateful set of each task's node set, whenever the cluster has it, has an owner of kind
  -- Elasticsearch and API version `elasticsearch.k8s.elastic.co/v1`, then the reconciler never works: whatever tasks it is called for and whatever others do to the world, nothing is ever
  -- sent, no call waits to send, and no restore is ever started.
  pub SystemReach-IsUnused :
      IsOwned env
      → (labels : Option Labels) (w : W) (p : System T W)
      → SystemReach env db es Others (new_system labels w) p
      → IsUnused p
  unfolding new_system
  SystemReach-IsUnused owned labels w _ here = (refl, refl, refl, refl, refl, refl)
  SystemReach-IsUnused owned labels w p (next {q} r m) =
      SystemMove-IsUnused owned m (SystemReach-IsUnused owned labels w q r)
