-- ===== src/Http/Handlers/Restore/Accounts.antt =====
-- How `RestoreViaCR` accounts for the tasks that it is given.
use es_snapshot_restore.Base.{
  ℕ, suc, String, ◌≡◌, refl, sym, ap, ◌∙◌, Bool, true, false, not, Option, none, some, List, [],
  ◌∷◌, ◌++◌, Error, if◌then◌else◌, is_nil,
}
use mathlib.Core.List.{append_assoc, append-nil}
use es_snapshot_restore.Api.{Cluster}
use es_snapshot_restore.Db.{Database}
use es_snapshot_restore.K8s.{EsConfig}
use es_snapshot_restore.Http.Handlers.{Reply, reply, both_lists, success_list}
use es_snapshot_restore.Http.Handlers.Restore.{
  RestoreViaCr, Progress, task_row, resource, row_failed, resource_made, row_made, round, rounds,
  final_replies, restore_all,
}

-- What became of one task: no row, a row and no resource, or both.
pub data Fate : Type 0 where
  no_row no_resource made : Fate

abbrev pub has_row : Fate → Bool
has_row no_row = false
has_row no_resource = true
has_row made = true

abbrev pub is_made : Fate → Bool
is_made no_row = false
is_made no_resource = false
is_made made = true

-- The tasks whose fate passes a test, in order.
abbrev pub those : (Fate → Bool) → List (String × Fate) → List String
those p [] = []
those p ((id, x) ∷ xs) = if p x then id ∷ those p xs else those p xs

module _ {F Q NA T W : Type 0} (k : Cluster Q NA T W) (db : Database T W) (c : EsConfig F NA)
    (node_name : String) where
  open k use {create_task}
  open db use {create_tasks}

  abbrev resource_fate : W × Option Error → Fate × W
  resource_fate (w, none) = (made, w)
  resource_fate (w, some e) = (no_resource, w)

  abbrev row_fate : String → RestoreViaCr → W × Option Error → Fate × W
  row_fate suffix t (w, some e) = (no_row, w)
  row_fate suffix t (w, none) = resource_fate (create_task (resource k db c node_name suffix t) w)

  -- The two calls for one task.
  abbrev pub fate : String → RestoreViaCr → W → Fate × W
  fate suffix t w = row_fate suffix t (create_tasks (task_row k db c node_name t ∷ []) w)

  -- The same for each task in turn.
  abbrev pub fates : (ℕ → String) → ℕ → List RestoreViaCr → W → List (String × Fate)
  fates draw i [] w = []
  fates draw i (t ∷ ts) w =
      (t.task_id, (fate (draw i) t w).0) ∷ fates draw (suc i) ts (fate (draw i) t w).1

  -- What one round, with the fate `x`, does to the lists and the world.
  record IsRound (t : RestoreViaCr) (x : Fate × W) (p p' : Progress T W) : Type 0 where
    listed : p'.success_taskes ≡ p.success_taskes ++ those has_row ((t.task_id, x.0) ∷ [])
    unfinished :
        p'.failed_taskes ≡ p.failed_taskes ++ those (λ y. not (is_made y)) ((t.task_id, x.0) ∷ [])
    reached : p'.world ≡ x.1

  resource_made-IsRound :
      (name : String) (t : RestoreViaCr) (p : Progress T W) (r : W × Option Error)
      → IsRound t (resource_fate r) p (resource_made k db c node_name name t p r)
  unfolding resource_made
  resource_made-IsRound name t p (w, none) = record {
    listed = refl;
    unfinished = sym (append-nil p.failed_taskes);
    reached = refl;
  }
  resource_made-IsRound name t p (w, some e) = record {
    listed = refl;
    unfinished = refl;
    reached = refl;
  }

  row_made-IsRound :
      (suffix : String) (t : RestoreViaCr) (p : Progress T W) (r : W × Option Error)
      → IsRound t (row_fate suffix t r) p (row_made k db c node_name suffix t p r)
  unfolding row_made row_failed
  row_made-IsRound suffix t p (w, some e) = record {
    listed = sym (append-nil p.success_taskes);
    unfinished = refl;
    reached = refl;
  }
  row_made-IsRound suffix t p (w, none) = resource_made-IsRound _ t p _

  round-IsRound :
      (suffix : String) (t : RestoreViaCr) (p : Progress T W)
      → IsRound t (fate suffix t p.world) p (round k db c node_name suffix t p)
  unfolding round
  round-IsRound suffix t p = row_made-IsRound suffix t p _

  those-concat :
      (g : Fate → Bool) (e : String × Fate) (xs : List (String × Fate)) (ys : List String)
      → (ys ++ those g (e ∷ [])) ++ those g xs ≡ ys ++ those g (e ∷ xs)
  those-concat g e xs ys =
      append_assoc ys (those g (e ∷ [])) (those g xs) ∙ ap (λ u. ys ++ u) (split (g e.1))
    where
      split :
          (b : Bool)
          → (if b then e.0 ∷ [] else []) ++ those g xs
            ≡ (if b then e.0 ∷ those g xs else those g xs)
      split true = refl
      split false = refl

  -- One round put before the others.
  lists-step :
      (g : Fate → Bool) (e : String × Fate) (h : W → List (String × Fate))
      (before between after : List String) (w w' : W)
      → between ≡ before ++ those g (e ∷ [])
      → w' ≡ w
      → after ≡ between ++ those g (h w')
      → after ≡ before ++ those g (e ∷ h w)
  lists-step g e h before between after w w' el ew ea =
      ea ∙ rw (el, ew) (those-concat g e (h w) before)

  rounds_lists :
      (draw : ℕ → String) (i : ℕ) (ts : List RestoreViaCr) (p : Progress T W)
      → let p' = rounds k db c node_name draw i ts p in
        (p'.success_taskes ≡ p.success_taskes ++ those has_row (fates draw i ts p.world))
        × (p'.failed_taskes
            ≡ p.failed_taskes ++ those (λ y. not (is_made y)) (fates draw i ts p.world))
  unfolding rounds
  rounds_lists draw i [] p = (sym (append-nil p.success_taskes), sym (append-nil p.failed_taskes))
  rounds_lists draw i (t ∷ ts) p =
      let step = round-IsRound (draw i) t p in
      let p₁ = round k db c node_name (draw i) t p in
      let ih = rounds_lists draw (suc i) ts p₁ in
      let e : String × Fate = (t.task_id, (fate (draw i) t p.world).0) in
      let rest : W → List (String × Fate) = fates draw (suc i) ts in
      (
        lists-step has_row e rest p.success_taskes p₁.success_taskes _ (fate (draw i) t p.world).1
            p₁.world step.listed step.reached ih.0,
        lists-step (λ y. not (is_made y)) e rest p.failed_taskes p₁.failed_taskes _
            (fate (draw i) t p.world).1 p₁.world step.unfinished step.reached ih.1,
      )

  -- The answer ends with 200 and the tasks that have a row, in the order given. If a task has no
  -- resource, 500 stands before that, with the same tasks and those that lack a row or a resource:
  -- a task with a row and no resource is in both lists.
  pub restore_all_replies :
      (draw : ℕ → String) (ts : List RestoreViaCr) (w : W)
      → let listed = those has_row (fates draw 0 ts w) in
        let unfinished = those (λ y. not (is_made y)) (fates draw 0 ts w) in
        (rs : List (Reply T)) × ((restore_all k db c node_name draw ts w).0
          ≡ rs
            ++ (if is_nil unfinished
                then reply 200 (success_list listed) ∷ []
                else reply 500 (both_lists listed unfinished)
                  ∷ reply 200 (success_list listed)
                  ∷ []))
  unfolding restore_all final_replies
  restore_all_replies draw ts w =
      let p : Progress T W = record {
        success_taskes = [];
        failed_taskes = [];
        replies = [];
        world = w;
      } in
      let p' = rounds k db c node_name draw 0 ts p in
      let lists = rounds_lists draw 0 ts p in (p'.replies, rw (← lists.0, ← lists.1))
