-- ===== src/Cron/Logger.antt =====
-- internal/cron/logger.go: what the scheduler's log calls pass on. `show_time` stands for
-- `t.Format(time.RFC3339)`.
pub mod Verbs
use es_snapshot_restore.Base.{ℕ, ◌+◌, ◌<>◌, String, List, [], ◌∷◌, ◌++◌, length}
use es_snapshot_restore.Cron.{format_string}

-- An argument: a time, a text, or any other value by its print.
pub data Arg (T : Type 0) : Type 0 where
  time : T → Arg T
  text : String → Arg T
  other : String → Arg T

-- The arguments of `Msgf`.
pub record LogCall (T : Type 0) : Type 0 where
  pub format : String
  pub args : List (Arg T)

module _ {T : Type 0} (show_time : T → String) where
  abbrev format_time : Arg T → Arg T
  format_time (time t) = text (show_time t)
  format_time (text s) = text s
  format_time (other s) = other s

  -- The loop of `formatTimes`, with `formattedArgs`.
  pub format_times : List (Arg T) → List (Arg T) → List (Arg T)
  format_times out [] = out
  format_times out (a ∷ as') = format_times (out ++ (format_time a ∷ [])) as'

  -- `logger.Info`
  pub info : String → List (Arg T) → LogCall T
  unfolding format_times
  info msg kv =
      let formatted = format_times [] kv in
      record { format = "[CRON] " <> format_string (length formatted); args = text msg ∷ formatted }

  -- `logger.Error`
  pub error : String → String → List (Arg T) → LogCall T
  unfolding format_times
  error e msg kv =
      let formatted = format_times [] kv in
      record {
        format = format_string (length formatted + 2);
        args = text msg ∷ text "error" ∷ other e ∷ formatted;
      }
