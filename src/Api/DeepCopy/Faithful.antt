-- ===== src/Api/DeepCopy/Faithful.antt =====
-- The deep copies of the types stand for what their originals do.
use es_snapshot_restore.Base.{◌≡◌, refl, List, [], ◌∷◌, map}
use es_snapshot_restore.Api.Memory.{
  meta, list_meta_of, Foreign, texts, time, conditions, tasks, of_snapshot, of_elasticsearch,
  of_spec, of_status, of_task, of_list,
}
use es_snapshot_restore.Api.DeepCopy.{
  pick_meta, pick_list_meta, copy_meta_at, copy_list_meta_at, Copiers, pick_texts, pick_time,
  pick_conditions, pick_tasks, pick_snapshot, pick_elasticsearch, pick_spec, pick_status, pick_task,
  pick_list, copy_texts, spec_into, deep_copy_elasticsearch, deep_copy_snapshot, deep_copy_spec,
  copy_time_at, copy_conditions, status_into, deep_copy_status, task_into, deep_copy_task,
  tasks_into, list_into, deep_copy_list,
}
use es_snapshot_restore.Api.DeepCopy.Regions.{
  Meta-Frames, Items-Frames, Same, At, Nilable, Pointwise, ShowsSpec, ShowsStatus, ShowsTask,
  ShowsList, TaskPtr, ListPtr, Same-Frames, Pointwise-Frames, ShowsSpec-Frames, ShowsStatus-Frames,
  ShowsTask-Frames, ShowsList-Frames, Leaf-Frames,
}
use es_snapshot_restore.Api.DeepCopy.Copied.{
  Kept-refl, Kept-trans, InUse-Kept, Frames-Kept, Frames-first, Frames-next, Copies, Same-Copies,
  Nilable-Copies, At-Copies,
}

-- The deep copies of the other package yield an equal value.
pub record IsFaithful {F : Foreign} (c : Copiers F) : Type 0 where
  pub meta : (n : F.ObjectMeta) → c.copy_meta n ≡ n
  pub list_meta : (l : F.ListMeta) → c.copy_list_meta l ≡ l
  pub time : (t : F.Time) → c.copy_time t ≡ t
  pub condition : (q : F.Condition) → c.copy_condition q ≡ q

map_same : {A : Type 0} (f : A → A) → ((a : A) → f a ≡ a) → (xs : List A) → map f xs ≡ xs
map_same f same [] = refl
map_same f same (x ∷ xs) = rw (same x, map_same f same xs) refl

module _ {F : Foreign} where
  copy_texts-Copies : Copies {F = F} (At Same texts) copy_texts
  unfolding copy_texts
  copy_texts-Copies =
      At-Copies pick_texts texts (λ xs. refl) Same-Frames (Same-Copies (λ xs. xs) (λ xs. refl))

  pub deep_copy_elasticsearch-Copies :
      Copies {F = F} (Nilable (At Same of_elasticsearch)) deep_copy_elasticsearch
  unfolding deep_copy_elasticsearch
  deep_copy_elasticsearch-Copies = Nilable-Copies (
      At-Copies pick_elasticsearch of_elasticsearch (λ e. refl) Same-Frames
        (Same-Copies (λ e. e) (λ e. refl)))

  pub deep_copy_snapshot-Copies : Copies {F = F} (Nilable (At Same of_snapshot)) deep_copy_snapshot
  unfolding deep_copy_snapshot
  deep_copy_snapshot-Copies = Nilable-Copies (
      At-Copies pick_snapshot of_snapshot (λ e. refl) Same-Frames
        (Same-Copies (λ e. e) (λ e. refl)))

  spec_into-Copies : Copies {F = F} ShowsSpec spec_into
  unfolding spec_into copy_texts
  spec_into-Copies m R s v within h =
      let c = Nilable-Copies copy_texts-Copies m R s.indices v.indices within h.indices in
      record {
        out = record s { indices = c.out };
        after = c.after;
        returned = rw c.returned refl;
        kept = c.kept;
        shows = record {
          task_id = h.task_id;
          node_name = h.node_name;
          store_size = h.store_size;
          snapshot = h.snapshot;
          elasticsearch_ref = h.elasticsearch_ref;
          indices = c.shows;
        };
      }

  pub deep_copy_spec-Copies : Copies {F = F} (Nilable (At ShowsSpec of_spec)) deep_copy_spec
  unfolding deep_copy_spec
  deep_copy_spec-Copies =
      Nilable-Copies (At-Copies pick_spec of_spec (λ s. refl) ShowsSpec-Frames spec_into-Copies)

module _ {F : Foreign} (c : Copiers F) (faithful : IsFaithful c) where
  copy_time_at-Copies : Copies {F = F} (At Same time) (copy_time_at c)
  unfolding copy_time_at
  copy_time_at-Copies =
      At-Copies pick_time time (λ t. refl) Same-Frames (Same-Copies c.copy_time faithful.time)

  copy_conditions-Copies : Copies {F = F} (At Same conditions) (copy_conditions c)
  unfolding copy_conditions
  copy_conditions-Copies =
      At-Copies pick_conditions conditions (λ cs. refl) Same-Frames
        (Same-Copies (map c.copy_condition) (map_same c.copy_condition faithful.condition))

  status_into-Copies : Copies {F = F} ShowsStatus (status_into c)
  unfolding status_into
  status_into-Copies m R s v within h =
      let a = Nilable-Copies copy_time_at-Copies m R s.start_at v.start_at within h.start_at in
      let in_a = InUse-Kept a.kept within in
      let b =
        Nilable-Copies copy_time_at-Copies a.after R s.finished_at v.finished_at in_a
          (Frames-Kept (Leaf-Frames time) a.kept within h.finished_at) in
      let ab = Kept-trans a.kept b.kept in
      let d =
        Nilable-Copies copy_conditions-Copies b.after R s.conditions v.conditions
          (InUse-Kept ab within) (Frames-Kept (Leaf-Frames conditions) ab within h.conditions) in
      record {
        out = record s { start_at = a.out; finished_at = b.out; conditions = d.out };
        after = d.after;
        returned = rw a.returned (rw b.returned (rw d.returned refl));
        kept = Kept-trans ab d.kept;
        shows = record {
          reason = h.reason;
          status = h.status;
          start_at = Frames-first (Leaf-Frames time) m (Kept-trans b.kept d.kept) a.shows;
          finished_at =
              Frames-first (Leaf-Frames time) m d.kept
                (Frames-next (Leaf-Frames time) m a.kept b.shows);
          conditions = Frames-next (Leaf-Frames conditions) m ab d.shows;
        };
      }

  pub deep_copy_status-Copies :
      Copies {F = F} (Nilable (At ShowsStatus of_status)) (deep_copy_status c)
  unfolding deep_copy_status
  deep_copy_status-Copies =
      Nilable-Copies
        (At-Copies pick_status of_status (λ s. refl) ShowsStatus-Frames status_into-Copies)

  copy_meta_at-Copies : Copies {F = F} (At Same meta) (copy_meta_at c)
  unfolding copy_meta_at
  copy_meta_at-Copies =
      At-Copies pick_meta meta (λ n. refl) Same-Frames (Same-Copies c.copy_meta faithful.meta)

  copy_list_meta_at-Copies : Copies {F = F} (At Same list_meta_of) (copy_list_meta_at c)
  unfolding copy_list_meta_at
  copy_list_meta_at-Copies =
      At-Copies pick_list_meta list_meta_of (λ l. refl) Same-Frames
        (Same-Copies c.copy_list_meta faithful.list_meta)

  task_into-Copies : Copies {F = F} ShowsTask (task_into c)
  unfolding task_into
  task_into-Copies m R t v within h =
      let n = copy_meta_at-Copies m R t.object_meta v.object_meta within h.object_meta in
      let a =
        spec_into-Copies n.after R t.spec v.spec (InUse-Kept n.kept within)
          (Frames-Kept ShowsSpec-Frames n.kept within h.spec) in
      let na = Kept-trans n.kept a.kept in
      let b =
        status_into-Copies a.after R t.status v.status (InUse-Kept na within)
          (Frames-Kept ShowsStatus-Frames na within h.status) in
      record {
        out = record t { object_meta = n.out; spec = a.out; status = b.out };
        after = b.after;
        returned = rw n.returned (rw a.returned (rw b.returned refl));
        kept = Kept-trans na b.kept;
        shows = record {
          type_meta = h.type_meta;
          object_meta = Frames-first (Meta-Frames meta) m (Kept-trans a.kept b.kept) n.shows;
          spec =
              Frames-first ShowsSpec-Frames m b.kept
                (Frames-next ShowsSpec-Frames m n.kept a.shows);
          status = Frames-next ShowsStatus-Frames m na b.shows;
        };
      }

  pub task_ptr-Copies : Copies {F = F} TaskPtr (deep_copy_task c)
  unfolding deep_copy_task
  task_ptr-Copies =
      Nilable-Copies (At-Copies pick_task of_task (λ t. refl) ShowsTask-Frames task_into-Copies)

  tasks_into-Copies : Copies {F = F} (Pointwise ShowsTask) (tasks_into c)
  unfolding tasks_into
  tasks_into-Copies m R [] [] within h = record {
    out = [];
    after = m;
    returned = refl;
    kept = Kept-refl m;
    shows = tt;
  }
  tasks_into-Copies m R (t ∷ ts) (v ∷ vs) within (h, hs) =
      let frames = Pointwise-Frames ShowsTask ShowsTask-Frames in
      let a = task_into-Copies m R t v within h in
      let b =
        tasks_into-Copies a.after R ts vs (InUse-Kept a.kept within)
          (Frames-Kept frames a.kept within hs) in
      record {
        out = a.out ∷ b.out;
        after = b.after;
        returned = rw a.returned (rw b.returned refl);
        kept = Kept-trans a.kept b.kept;
        shows =
            (Frames-first ShowsTask-Frames m b.kept a.shows, Frames-next frames m a.kept b.shows);
      }
  tasks_into-Copies m R [] (v ∷ vs) within h = absurd h
  tasks_into-Copies m R (t ∷ ts) [] within h = absurd h

  list_into-Copies : Copies {F = F} ShowsList (list_into c)
  unfolding list_into
  list_into-Copies m R l v within h =
      let n = copy_list_meta_at-Copies m R l.list_meta v.list_meta within h.list_meta in
      let a =
        Nilable-Copies
          (At-Copies pick_tasks tasks (λ ts. refl) (Pointwise-Frames ShowsTask ShowsTask-Frames)
            tasks_into-Copies)
          n.after R l.items v.items (InUse-Kept n.kept within)
          (Frames-Kept Items-Frames n.kept within h.items) in
      record {
        out = record l { list_meta = n.out; items = a.out };
        after = a.after;
        returned = rw n.returned (rw a.returned refl);
        kept = Kept-trans n.kept a.kept;
        shows = record {
          type_meta = h.type_meta;
          list_meta = Frames-first (Meta-Frames list_meta_of) m a.kept n.shows;
          items = Frames-next Items-Frames m n.kept a.shows;
        };
      }

  pub list_ptr-Copies : Copies {F = F} ListPtr (deep_copy_list c)
  unfolding deep_copy_list
  list_ptr-Copies =
      Nilable-Copies (At-Copies pick_list of_list (λ l. refl) ShowsList-Frames list_into-Copies)
