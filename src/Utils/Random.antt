-- ===== src/Utils/Random.antt =====
-- internal/utils/utils.go, `RandomString`. The text is the list of its characters, and `draw i` is
-- the i-th number that `rand.Intn(len(charset))` draws.
pub mod Names
use es_snapshot_restore.Base.{ℕ, zero, suc, String, Option, none, some, List, [], ◌∷◌}
use es_snapshot_restore.Utils.Size.{codes}

abbrev pub charset : List ℕ
charset = codes "abcdefghijklmnopqrstuvwxyzABCDEFGHIJKLMNOPQRSTUVWXYZ0123456789"

abbrev pub get_elem? : List ℕ → ℕ → Option ℕ
get_elem? [] i = none
get_elem? (x ∷ xs) zero = some x
get_elem? (x ∷ xs) (suc i) = get_elem? xs i

abbrev put_first : Option ℕ → Option (List ℕ) → Option (List ℕ)
put_first none rest = none
put_first (some c) none = none
put_first (some c) (some s) = some (c ∷ s)

-- The loop over the `length` places of `result`, from `i` on. `none` is a panic, for an index that
-- the charset does not have.
unfoldable pub random_string : (ℕ → ℕ) → ℕ → ℕ → Option (List ℕ)
random_string draw i zero = some []
random_string draw i (suc length) =
    put_first (get_elem? charset (draw i)) (random_string draw (suc i) length)
