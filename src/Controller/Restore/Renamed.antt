-- ===== src/Controller/Restore/Renamed.antt =====
-- Which index a restore waits for. The request asks Elasticsearch to rename what it restores, by the
-- pattern `(.+)` and a replacement that ends in `$1`.
use Prim.Native.String.append
use text.Mathlib.TextLemmas.{append_assoc}
use es_snapshot_restore.Base.{
  none, some, Result, ℤ, ◌+◌, String, ◌<>◌, ◌≡◌, ◌≢◌, refl, ap, ◌∙◌, List, [], ◌∷◌, arith, ok,
  length,
}
use es_snapshot_restore.Utils.Size.{codes}
use es_snapshot_restore.Db.{Task, Database}
use es_snapshot_restore.Elastic.{
  restore_body, Search, Response, restore_answer, CatRecoveryRequest, SnapshotRestoreRequest,
  restore, get_restore_index_process, restore_snapshot_request, cat_index_recovery_request,
}
use es_snapshot_restore.Elastic.Request.{
  Contains, replacement, restore_body-Contains, pattern_text, restore_body-pattern,
}
use es_snapshot_restore.Controller.{Queued}
use es_snapshot_restore.Controller.Restore.{
  End, finished, Wake, tick, time_out, set_status, check_progress, on_wake, poll, mark_failed,
  run_restore, task_query, with_rows, restore_indices,
}

-- The name that the request gives to an index: its replacement with the index in the place of `$1`, which
-- stands for all that the pattern `(.+)` matches.
abbrev pub restored_name : String → String → String → String
restored_name key repository index = key <> ("_" <> (repository <> ("_" <> index)))

-- The entry of the body that asks for a replacement.
abbrev pub renaming : String → String
renaming name = "\"rename_replacement\": \"" <> (name <> "\"")

replacement-renaming :
    (key repository : String)
    → replacement key repository ≡ renaming (restored_name key repository "$1")
replacement-renaming key repository = simp append_assoc refl

restore_body-renaming :
    (indices : List String) (key attribute repository : String)
    → Contains
        (renaming (restored_name key repository "$1"))
        (restore_body indices key attribute repository)
restore_body-renaming indices key attribute repository =
    rw (← replacement-renaming key repository)
      (restore_body-Contains indices key attribute repository).0

length-codes-append : (s t : String) → length (codes (s <> t)) ≡ length (codes s) + length (codes t)
length-codes-append String.[] t = ap (λ u. length (codes u)) (append.nil t) ∙ omega arith
length-codes-append (String.◌∷◌ c s) t =
    ap (λ u. length (codes u)) (append.cons c s t) ∙ omega (arith, length-codes-append s t)

restored_name-new : (key repository index : String) → index ≢ restored_name key repository index
restored_name-new key repository index h =
    let all = length-codes-append key ("_" <> (repository <> ("_" <> index))) in
    let after_key = length-codes-append "_" (repository <> ("_" <> index)) in
    let after = length-codes-append repository ("_" <> index) in
    let own = length-codes-append "_" index in
    let same = ap (λ s. length (codes s)) h in absurd (omega arith)

-- Two engines that answer alike, except on the recovery of the index of this name.
pub record SameBut {W : Type 0} (name : String) (es es' : Search W) : Type 0 where
  pub restores :
      (r : SnapshotRestoreRequest) (w : W) → es.snapshot_restore r w ≡ es'.snapshot_restore r w
  pub recovers :
      (r : CatRecoveryRequest) (w : W) (index : String)
      → r.index ≡ index ∷ []
      → index ≢ name
      → es.cat_recovery r w ≡ es'.cat_recovery r w

module _ {T W : Type 0} (db : Database T W) (es es' : Search W) (key : String) (limit : ℤ)
    (t : Task T) where
  abbrev pub AreAlike : Type 0
  AreAlike = SameBut (restored_name key t.repository t.index) es es'

  process-alike :
      AreAlike
      → (w : W)
      → get_restore_index_process es (t.index ∷ []) w
        ≡ get_restore_index_process es' (t.index ∷ []) w
  unfolding get_restore_index_process cat_index_recovery_request
  process-alike same w =
      rw
        (same.recovers (cat_index_recovery_request (t.index ∷ [])) w t.index refl
          (restored_name-new key t.repository t.index))
        refl

  check_progress-alike :
      AreAlike
      → (rows : List (Task T)) (w : W)
      → check_progress db es key limit rows t w ≡ check_progress db es' key limit rows t w
  unfolding check_progress set_status
  check_progress-alike same rows w = rw (process-alike same w, check_progress) refl

  on_wake-alike :
      AreAlike
      → (rows : List (Task T)) (e : Wake W) (w : W)
      → on_wake db es key limit rows t e w ≡ on_wake db es' key limit rows t e w
  unfolding on_wake set_status
  on_wake-alike same rows (tick others) w = check_progress-alike same rows (others w)
  on_wake-alike same rows (time_out others) w = refl

  poll-alike :
      AreAlike
      → (rows : List (Task T)) (wakes : List (Wake W)) (w : W)
      → poll db es key limit rows t wakes w ≡ poll db es' key limit rows t wakes w
  unfolding poll
  poll-alike same rows [] w = refl
  poll-alike same rows (e ∷ wakes) w = ground (
    arith,
    on_wake-alike same rows e w,
    poll-alike same rows wakes (on_wake db es key limit rows t e w).0,
  )

  restore-alike :
      AreAlike
      → (w : W)
      → restore es t.repository t.snapshot key key t.repository (t.index ∷ []) w
        ≡ restore es' t.repository t.snapshot key key t.repository (t.index ∷ []) w
  unfolding restore
  restore-alike same w =
      rw
        (same.restores
          (restore_snapshot_request t.repository t.snapshot key key t.repository (t.index ∷ [])) w)
        refl

  run_restore-alike :
      AreAlike
      → (rows : List (Task T)) (wakes : List (Wake W)) (w : W)
      → run_restore db es key limit rows t wakes w ≡ run_restore db es' key limit rows t wakes w
  unfolding run_restore mark_failed
  run_restore-alike same rows wakes w = ground (
    arith,
    restore-alike same w,
    poll-alike same rows wakes
        (restore es t.repository t.snapshot key key t.repository (t.index ∷ []) w).0,
  )

  -- The request that the row leads to.
  abbrev pub request : SnapshotRestoreRequest
  request = restore_snapshot_request t.repository t.snapshot key key t.repository (t.index ∷ [])

  -- What `restoreIndices` makes of the answer to it.
  abbrev pub after_request : List (Wake W) → W × Result Response → W × End
  after_request wakes (w, answer) = elim (restore_answer (t.index ∷ []) t.snapshot answer) [
    | none ↦ poll db es key limit (t ∷ []) t wakes w
    | some x ↦ ((mark_failed db es key limit (t ∷ []) t w).0, finished (some x))
  ]

  -- If the query finds one row, then the call goes by the answer to one request, whose body has the pattern
  -- `(.+)`, and as the replacement the name `<key>_<repository>_$1`, which with the index of the row for `$1` is another name
  -- than that index; and the call ends just the same with any other engine that differs in
  -- nothing but what it reports of the recovery of an index of that other name.
  pub restore_indices-original :
      AreAlike
      → (q : Queued) (i : String) (is : List String) (wakes : List (Wake W)) (w : W)
      → q.index ≡ i ∷ is
      → db.find_tasks (task_query db es key limit q.task_id i) w ≡ ok (t ∷ [])
      → (restore_indices db es key limit q wakes w
          ≡ after_request wakes (es.snapshot_restore request w))
        × Contains pattern_text request.body
        × Contains (renaming (restored_name key t.repository "$1")) request.body
        × (t.index ≢ restored_name key t.repository t.index)
        × (restore_indices db es key limit q wakes w ≡ restore_indices db es' key limit q wakes w)
  unfolding restore_indices with_rows task_query restore_snapshot_request run_restore restore
  restore_indices-original same q i is wakes w index found = (
    rw (index, found, restore_indices) refl,
    restore_body-pattern (t.index ∷ []) key key t.repository,
    restore_body-renaming (t.index ∷ []) key key t.repository,
    restored_name-new key t.repository t.index,
    rw (index, found, restore_indices) (run_restore-alike same (t ∷ []) wakes w),
  )
