-- ===== src/Annotated/Workers/Bounds.antt =====
-- What holds of the earlier controller after any interleaving.
use mathlib.Core.List.{append-nil}
use es_snapshot_restore.Base.{
  sym, ◌∙◌, count, count-append, ap, ◌+◌, ◌≤◌, ◌≡◌, refl, Bool, none, some, List, [], ◌∷◌, ◌++◌,
  if◌then◌else◌, length, length-append, arith, ok, err, Bool-cases, Option-cases, inl, inr, ltb,
  eqb, Result, ignore_not_found, ◌==◌, Option, Error,
}
use es_snapshot_restore.Api.{NamespacedName, StatefulSet}
use es_snapshot_restore.Annotated.{
  SetTask, SetClient, SetState, returned, panicked, send_task, patched_set, claim_set,
  reconcile_set, annotation, SetOutcome, annotation_restore_task_status,
}
use es_snapshot_restore.Controller.{restore_status_pending}
use es_snapshot_restore.Annotated.Workers.{
  Workers, new_workers, in_hand, marks, claims, SetMove, start, start_hooked, call, send, receive,
  work, leave, others, SetReach, here, next,
}

module _ {W : Type 0} (k : SetClient W) where
  pub record IsBounded (p : Workers W) : Type 0 where
    pub queue_fits : length p.state.task_queue ≤ 100
    pub loops_hold_one : length p.held ≤ p.loops

  -- Every set that was marked is an entry in exactly one place.
  abbrev pub IsConserved : Workers W → Type 0
  IsConserved p =
      (f : SetTask → Bool)
      → count f p.claimed
        ≡ count f p.sending + count f p.state.task_queue + count f p.held + count f p.done

  -- A call's result: what it leaves in the queue and has in hand is what was in the queue and `made`,
  -- and the queue does not outgrow its room.
  abbrev Fits : SetState W → List SetTask → SetOutcome × SetState W → Type 0
  Fits s made (o, s') =
      (s'.task_queue ++ in_hand o ≡ s.task_queue ++ made)
      × (length s.task_queue ≤ 100 → length s'.task_queue ≤ 100)

  Fits-same :
      (s : SetState W) (w : W) (e : Option Error) → Fits s [] (returned e, record s { world = w })
  Fits-same s w e = (refl, λ h. h)

  send_task-Fits : (t : SetTask) (s : SetState W) → Fits s (t ∷ []) (send_task k t s)
  unfolding send_task
  send_task-Fits t s = elim (Bool-cases (ltb (length s.task_queue) 100)) [
    | inl room ↦
        rw (room, send_task)
          (
            append-nil (s.task_queue ++ (t ∷ [])),
            λ h. ground (arith, length-append s.task_queue (t ∷ [])),
          )
    | inr full ↦ rw (full, send_task) (refl, λ h. h)
  ]

  -- The entry, if the patch succeeds.
  abbrev if_patched : SetTask → Option Error → List SetTask
  if_patched t (some e) = []
  if_patched t none = t ∷ []

  patched_set-Fits :
      (t : SetTask) (s : SetState W) (r : W × Option Error)
      → Fits s (if_patched t r.1) (patched_set k t s r)
  unfolding patched_set
  patched_set-Fits t s (w, some e) = Fits-same s w (some e)
  patched_set-Fits t s (w, none) = send_task-Fits t (record s { world = w })

  claim_set-Fits :
      (req : NamespacedName) (sts : StatefulSet) (s : SetState W)
      → Fits s (marks k req sts s.world) (claim_set k req sts s)
  unfolding claim_set
  claim_set-Fits req sts s =
      elim (Bool-cases (annotation annotation_restore_task_status sts == restore_status_pending)) [
        | inl pending ↦ rw (pending, claim_set) (patched_set-Fits _ s _)
        | inr other ↦ rw (other, claim_set) (Fits-same s s.world none)
      ]

  -- `Reconcile` after the set was looked for.
  fetched-Fits :
      (req : NamespacedName) (s : SetState W) (r : Result StatefulSet)
      → Fits s
          (elim r [
            | err e ↦ []
            | ok sts ↦ elim sts.replicas [
              | none ↦ []
              | some n ↦ if eqb sts.ready_replicas n then marks k req sts s.world else []
            ]
          ])
          (elim r [
            | err e ↦ (returned (ignore_not_found e), s)
            | ok sts ↦ elim sts.replicas [
              | none ↦ (panicked, s)
              | some n ↦
                  if eqb sts.ready_replicas n then claim_set k req sts s else (returned none, s)
            ]
          ])
  fetched-Fits req s (err e) = Fits-same s s.world (ignore_not_found e)
  fetched-Fits req s (ok sts) = elim (Option-cases (sts.replicas)) [
    | inl nil ↦ rw nil (refl, λ h. h)
    | inr (n, wanted) ↦ rw wanted (elim (Bool-cases (eqb sts.ready_replicas n)) [
      | inl same ↦ rw same (claim_set-Fits req sts s)
      | inr other ↦ rw other (Fits-same s s.world none)
    ])
  ]

  -- What a call leaves and has in hand is what was there and what it has marked as running.
  pub reconcile_set-Fits :
      (req : NamespacedName) (s : SetState W)
      → Fits s (claims k req s.world) (reconcile_set k req s)
  unfolding reconcile_set
  reconcile_set-Fits req s = fetched-Fits req s (k.get_sts req s.world)

  SetMove-IsBounded : {p p' : Workers W} → SetMove k p p' → IsBounded p → IsBounded p'
  SetMove-IsBounded {p} (start e) b = ground arith
  SetMove-IsBounded {p} (start_hooked e) b = ground arith
  SetMove-IsBounded {p} (call req o s result e) b =
      let fits = (reconcile_set-Fits req p.state).1 b.queue_fits in
      let same = ap (λ r. length (r.1.task_queue)) result in ground (arith, fits, same)
  SetMove-IsBounded {p} (send xs t ys room w e) b =
      ground (arith, length-append p.state.task_queue (t ∷ []))
  SetMove-IsBounded {p} (receive t rest idle q e) b =
      ground (arith, length-append p.held (t ∷ []), ap length q)
  SetMove-IsBounded {p} (work xs t ys h e) b =
      ground (arith, length-append xs (t ∷ ys), length-append xs ys, ap length h)
  SetMove-IsBounded {p} (leave m n idle a l e) b = ground arith
  SetMove-IsBounded {p} (others f e) b = ground arith

  SetMove-IsConserved : {p p' : Workers W} → SetMove k p p' → IsConserved p → IsConserved p'
  SetMove-IsConserved {p} (start e) c f = ground (arith, c f)
  SetMove-IsConserved {p} (start_hooked e) c f = ground (arith, c f)
  SetMove-IsConserved {p} (call req o s result e) c f =
      let made = claims k req p.state.world in
      let kept : s.task_queue ++ in_hand o ≡ p.state.task_queue ++ made =
        ap (λ r. r.1.task_queue ++ in_hand r.0) (sym result) ∙ (reconcile_set-Fits req p.state).0 in
      ground (
        arith,
        c f,
        ap (count f) kept,
        count-append f s.task_queue (in_hand o),
        count-append f p.state.task_queue made,
        count-append f p.sending (in_hand o),
        count-append f p.claimed made,
      )
  SetMove-IsConserved {p} (send xs t ys room w e) c f = ground (
    arith,
    c f,
    ap (count f) w,
    count-append f p.state.task_queue (t ∷ []),
    count-append f xs (t ∷ ys),
    count-append f xs ys,
  )
  SetMove-IsConserved {p} (receive t rest idle q e) c f =
      ground (arith, c f, ap (count f) q, count-append f p.held (t ∷ []))
  SetMove-IsConserved {p} (work xs t ys h e) c f = ground (
    arith,
    c f,
    ap (count f) h,
    count-append f p.done (t ∷ []),
    count-append f xs (t ∷ ys),
    count-append f xs ys,
  )
  SetMove-IsConserved {p} (leave m n idle a l e) c f = ground (arith, c f)
  SetMove-IsConserved {p} (others g e) c f = ground (arith, c f)

  -- After any interleaving of calls of `Reconcile`, loops and others, the queue holds at most 100
  -- entries, and no more entries are being worked on than loops run. Each stateful set that a call of
  -- `Reconcile` has marked as running, as often as calls have done so, has its entry exactly once among
  -- those in the hands of calls that wait, in the queue, in the hands of loops, and finished; and there are
  -- no other entries.
  pub SetReach-safe :
      (w : W) {p : Workers W} → SetReach k (new_workers w) p → IsBounded p × IsConserved p
  unfolding new_workers
  SetReach-safe w here = (omega arith, λ f. refl)
  SetReach-safe w (next r m) =
      let (b, c) = SetReach-safe w r in (SetMove-IsBounded m b, SetMove-IsConserved m c)
