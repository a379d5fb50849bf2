-- ===== src/Cron/Scheduler.antt =====
-- internal/cron/cron.go, the hook of `NewCron`, and `RegisterJobs` of job.go. The scheduler is the
-- library's.
use es_snapshot_restore.Base.{String, Option, none, some, List, [], ◌∷◌, Error}
use es_snapshot_restore.Lifecycle.{Hook}

pub data Job : Type 0 where
  all_index all_snapshot : Job

-- The calls of `AddJob`, in order, with the schedule of the configuration.
unfoldable pub register_jobs : String → List (String × Job)
register_jobs schedule = (schedule, all_index) ∷ (schedule, all_snapshot) ∷ []

-- What ends the `select` of the stop hook: the running jobs are done, or the hook's context is.
pub data StopEnd : Type 0 where
  jobs_done : StopEnd
  context_done : Error → StopEnd

unfoldable pub stop_answer : StopEnd → Option Error
stop_answer jobs_done = none
stop_answer (context_done e) = some e

-- `start` and `stop` stand for the scheduler's; `stop` says what ended the wait.
unfoldable pub cron_hook : {W : Type 0} → (W → W) → (W → W × StopEnd) → Hook W
unfolding stop_answer
cron_hook start stop = record {
  on_start = λ w. (start w, none);
  on_stop = λ w. let (w', e) = stop w in (w', stop_answer e);
}
