-- ===== src/Db/Time.antt =====
-- internal/db/string_time.go. `T` stands for `time.Time` and `ParseInLocation layout s` for the
-- library's parser in the local zone.
pub mod Laws
use es_snapshot_restore.Base.{
  String, ◌≡◌, refl, Bool, true, false, Option, none, some, List, [], ◌∷◌, arith, if◌then◌else◌,
  Error, bad_time, bad_scan, Result, ok, err,
}

pub record TimeString (T : Type 0) : Type 0 where
  pub time : T

pub record TimeLib (T : Type 0) : Type 0 where
  pub parse_in_location : String → String → Result T
  pub zero_time : T
  pub is_zero : T → Bool

-- `time.RFC3339`, `time.RFC3339Nano` and the two literal layouts.
abbrev pub layouts : List String
layouts =
    "2006-01-02T15:04:05Z07:00" ∷ "2006-01-02T15:04:05.999999999Z07:00" ∷ "2006-01-02 15:04:05"
    ∷ "2006-01-02" ∷ []

-- The dynamic types that `Scan` tells apart.
pub data Scanned (T : Type 0) : Type 0 where
  nil : Scanned T
  time_value : T → Scanned T
  text_value : String → Scanned T
  bytes_value : String → Scanned T
  other_value : Scanned T

module _ {T : Type 0} (lib : TimeLib T) where
  open lib use {parse_in_location, zero_time, is_zero}

  -- The loop of `parse`: the first layout that fits.
  pub parse_loop : List String → String → Result T
  parse_loop [] s = err (bad_time s)
  parse_loop (layout ∷ rest) s = elim (parse_in_location layout s) [
    | ok t ↦ ok t
    | err e ↦ parse_loop rest s
  ]

  pub parse : String → Result T
  unfolding parse_loop
  parse s = parse_loop layouts s

  -- The loop of `NewTimeString`, which returns in its first round on either branch.
  pub new_time_loop : List String → String → Result (TimeString T)
  new_time_loop [] s = err (bad_time s)
  new_time_loop (layout ∷ rest) s = elim (parse_in_location layout s) [
    | err e ↦ err e
    | ok t ↦ ok (record { time = t })
  ]

  pub new_time_string : String → Result (TimeString T)
  unfolding new_time_loop
  new_time_string s = new_time_loop layouts s

  -- `(*TimeString).Scan`: the receiver afterwards and the error.
  store_time : TimeString T → Result T → TimeString T × Option Error
  store_time old (ok t) = (record { time = t }, none)
  store_time old (err e) = (old, some e)

  pub scan : TimeString T → Scanned T → TimeString T × Option Error
  unfolding store_time
  scan old nil = (old, none)
  scan old (time_value t) = (record { time = t }, none)
  scan old (text_value s) = store_time old (parse s)
  scan old (bytes_value s) = store_time old (parse s)
  scan old other_value = (old, some bad_scan)

  -- `TimeString.Value`: the zero time is stored as NULL.
  pub value : TimeString T → Scanned T
  value t = if is_zero t.time then nil else time_value t.time
