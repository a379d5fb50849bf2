-- ===== src/Base/Ints.antt =====
-- Go's `int`, over the native numbers; the bounds of the type are left out.
use Prim.Native.Nat.{ℕ}

pub data ℤ : Type 0 where
  pos : ℕ → ℤ
  negsuc : ℕ → ℤ  -- `negsuc n` is - (n + 1)

-- The room of a channel that `make` was asked for with this number. On a negative one `make` panics, and
-- there is no channel.
abbrev pub capacity : ℤ → ℕ
capacity (pos n) = n
capacity (negsuc n) = 0
