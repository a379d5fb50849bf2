-- ===== src/Tests/Services.antt =====
-- The properties of sizes and random texts at concrete inputs.
use es_snapshot_restore.Utils.Random.{random_string}
use es_snapshot_restore.Utils.Random.Names.{
  is_alphanumeric, is_name_char, no_capital, random_string_bounds,
}
use es_snapshot_restore.Base.{
  zero, suc, ◌<◌, arith, length, all, ℕ, ◌≡◌, refl, true, some, List, ◌↔◌,
}
use es_snapshot_restore.Utils.Size.{
  codes, to_gb, convert, find_submatch, is_number, is_gap, is_letter, is_space,
}
use es_snapshot_restore.Utils.Size.Grammar.{Matches, find_submatch_iff}
use es_snapshot_restore.Utils.Size.Layout.{to_gb-layout}
use es_snapshot_restore.Tests.Demo.{demo_float}

abbrev size : List ℕ
size = codes "5 gb"

size-Matches : Matches size (codes "5") (codes " ") (codes "gb")
unfolding is_number is_gap is_letter
size-Matches = record {
  whole = refl;
  digits = refl;
  some_digit = λ e. cc e;
  blanks = refl;
  word = refl;
  some_letter = λ e. cc e;
}

find_submatch_iff_example :
    (find_submatch size ≡ some (codes "5", codes "gb"))
    ↔ ((g : List ℕ) × Matches size (codes "5") g (codes "gb"))
find_submatch_iff_example = find_submatch_iff size (codes "5") (codes "gb")

space : is_space 32 ≡ true
unfolding is_space
space = refl

to_gb-layout_example :
    to_gb demo_float (codes "  5 gb ") ≡ convert demo_float (codes "5") (codes "gb")
to_gb-layout_example =
    to_gb-layout demo_float (codes "  ") (codes " ") size (codes "5") (codes " ") (codes "gb")
      size-Matches (rw space) (rw space)

-- The second draw is the place of a capital.
abbrev draws : ℕ → ℕ
draws zero = 3
draws (suc i) = 26

draws_below : (i : ℕ) → draws i < 62
draws_below zero = omega arith
draws_below (suc i) = omega arith

random_string_bounds_example :
    (s : List ℕ) × (random_string draws 0 3 ≡ some s)
    × (length s ≡ 3)
    × (all is_alphanumeric s ≡ true)
    × (all is_name_char s ≡ no_capital draws 0 3)
random_string_bounds_example = random_string_bounds draws draws_below 0 3
