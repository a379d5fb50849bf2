-- ===== src/Controller/Filters.antt =====
-- `filterCreate`, `filterUpdate` and `match` of the reconciler. `SetupWithManager` does not use them:
-- the lines that would are commented out.
use es_snapshot_restore.Base.{Bool, true, false, String, Option, none, some, List}
use es_snapshot_restore.Api.{RestoreTask}

-- The object of an event: a task with its annotations, or an object of another type.
pub data Object (T : Type 0) : Type 0 where
  task : RestoreTask T → Option (List (String × String)) → Object T
  other : Object T

module _ {T : Type 0} where
  unfoldable pub match_task : RestoreTask T → Bool
  match_task t = true

  unfoldable pub filter_create : Object T → Bool
  unfolding match_task
  filter_create (task t annotations) = match_task t
  filter_create other = false

  -- Both must be tasks, and both must have annotations.
  unfoldable pub filter_update : Object T → Object T → Bool
  unfolding match_task
  filter_update (task old (some _)) (task new (some _)) = match_task new
  filter_update (task old (some _)) (task new none) = false
  filter_update (task old none) (task new annotations) = false
  filter_update (task old annotations) other = false
  filter_update other new = false
