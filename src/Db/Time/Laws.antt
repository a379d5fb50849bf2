-- ===== src/Db/Time/Laws.antt =====
-- Which texts `NewTimeString` and `Scan` read, and what a stored time gives back.
use es_snapshot_restore.Base.{String, ◌≡◌, true, none, arith, Error, ok, err}
use es_snapshot_restore.Db.Time.{TimeString, TimeLib, parse, new_time_string, scan, value}

abbrev pub rfc3339 : String
rfc3339 = "2006-01-02T15:04:05Z07:00"

module _ {T : Type 0} (lib : TimeLib T) where
  open lib use {parse_in_location, zero_time, is_zero}

  -- What `NewTimeString` reads, `parse` reads as the same time.
  pub new_time_string-parse :
      (s : String) (t : TimeString T) → new_time_string lib s ≡ ok t → parse lib s ≡ ok t.time
  unfolding new_time_string parse
  new_time_string-parse s t h = ground arith

  -- A text that neither of the two RFC 3339 layouts fits and the third one does is read by `parse`,
  -- and refused by `NewTimeString` with the error of the first layout.
  pub new_time_string_narrow :
      (s : String) (e : Error) (t : T)
      → parse_in_location rfc3339 s ≡ err e
      → parse_in_location "2006-01-02 15:04:05" s ≡ ok t
      → parse_in_location "2006-01-02T15:04:05.999999999Z07:00" s ≡ err e
      → (new_time_string lib s ≡ err e) × (parse lib s ≡ ok t)
  unfolding new_time_string parse
  new_time_string_narrow s e t first third second = ground arith

  -- A time that is stored and scanned back over the zero value is the same time, if the zero time
  -- is the only one that counts as zero.
  pub scan-value :
      (t : TimeString T)
      → (is_zero t.time ≡ true → t.time ≡ zero_time)
      → scan lib (record { time = zero_time }) (value lib t) ≡ (t, none)
  unfolding scan value
  scan-value t h = ground arith
