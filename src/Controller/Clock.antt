-- ===== src/Controller/Clock.antt =====
-- The ticker and the timer of `restoreIndices`: their durations are 64-bit integers, and `NewTicker`
-- panics on one that is not positive.
use Prim.Native.Nat.{◌%◌, ◌^◌}
use es_snapshot_restore.Base.{
  ℕ, ℤ, pos, negsuc, suc, ◌-◌, ◌*◌, ◌<◌, ◌≤◌, ◌≡◌, refl, Bool, true, false, ◌&&◌, ltb, arith,
}

-- `time.Duration(n) * unit`, as the bits of an `int64`.
unfoldable pub duration : ℕ → ℤ → ℕ
duration unit (pos n) = (n * unit) % 2 ^ 64
duration unit (negsuc n) = (2 ^ 64 - (suc n * unit) % 2 ^ 64) % 2 ^ 64

-- Above zero as an `int64`.
unfoldable pub is_positive : ℕ → Bool
is_positive d = ltb 0 d && ltb d (2 ^ 63)

-- `restoreTimeout` and `pollInterval`, in nanoseconds.
unfoldable pub restore_timeout : ℤ → ℕ
unfolding duration
restore_timeout minutes = duration 60000000000 minutes

unfoldable pub poll_interval : ℤ → ℕ
unfolding duration
poll_interval seconds = duration 1000000000 seconds

-- For 1 to 9223372036 seconds the ticker has the interval that is configured.
poll_interval-is_positive :
    (seconds : ℕ)
    → 0 < seconds
    → seconds ≤ 9223372036
    → (poll_interval (pos seconds) ≡ seconds * 1000000000)
      × (is_positive (poll_interval (pos seconds)) ≡ true)
unfolding poll_interval duration is_positive
poll_interval-is_positive seconds some_time fits = (omega arith, ground arith)

-- From 0 down to -9223372036 seconds `NewTicker` panics.
poll_interval-negative :
    (seconds : ℕ) → seconds < 9223372036 → is_positive (poll_interval (negsuc seconds)) ≡ false
unfolding poll_interval duration is_positive
poll_interval-negative seconds fits = ground arith

poll_interval-zero : is_positive (poll_interval (pos 0)) ≡ false
unfolding poll_interval duration is_positive
poll_interval-zero = refl

-- The same for the time-out and 1 to 153722867 minutes.
restore_timeout-is_positive :
    (minutes : ℕ)
    → 0 < minutes
    → minutes ≤ 153722867
    → (restore_timeout (pos minutes) ≡ minutes * 60000000000)
      × (is_positive (restore_timeout (pos minutes)) ≡ true)
unfolding restore_timeout duration is_positive
restore_timeout-is_positive minutes some_time fits = (omega arith, ground arith)

-- One minute more is negative, so the timer fires at once.
restore_timeout_wraps : is_positive (restore_timeout (pos 153722868)) ≡ false
unfolding restore_timeout duration is_positive
restore_timeout_wraps = refl
