-- ===== src/Utils/Size.antt =====
-- internal/utils/utils.go, `ToGB`: a size such as "1.5 gb", as a number of gigabytes. The text is
-- the list of its code points. `float64` is a parameter: the type, `strconv.ParseFloat` and the
-- operators that the function uses.
pub mod Grammar
pub mod Layout
use es_snapshot_restore.Base.{
  ℕ, ◌+◌, ◌-◌, Bool, true, false, ◌&&◌, ◌||◌, Option, none, some, List, [], ◌∷◌, map, leb, eqb,
  if◌then◌else◌, is_nil, take_while, drop_while, Error, cannot_parse, unknown_unit, Result, ok, err,
  String,
}
use mathlib.Core.List.{reverse}
use Prim.Native.Char.{code}

pub record Float64 : Type 1 where
  pub Float : Type 0
  pub parse_float : List ℕ → Result Float
  pub of_nat : ℕ → Float
  pub add : Float → Float → Float
  pub mul : Float → Float → Float
  pub div : Float → Float → Float
  pub lt : Float → Float → Bool
  -- `fmt.Sprintf("%f", x)`
  pub format_f : Float → String

abbrev pub codes : String → List ℕ
codes String.[] = []
codes (String.◌∷◌ c s) = code c ∷ codes s

abbrev between : ℕ → ℕ → ℕ → Bool
between lo hi c = leb lo c && leb c hi

-- `unicode.IsSpace`, which `strings.TrimSpace` strips at both ends.
unfoldable pub is_space : ℕ → Bool
is_space c =
    between 9 13 c
    || eqb c 32
    || eqb c 0x85
    || eqb c 0xA0
    || eqb c 0x1680
    || between 0x2000 0x200A c
    || eqb c 0x2028
    || eqb c 0x2029
    || eqb c 0x202F
    || eqb c 0x205F
    || eqb c 0x3000

unfoldable pub trim_space : List ℕ → List ℕ
trim_space s = reverse (drop_while is_space (reverse (drop_while is_space s)))

-- The classes `[\d.]`, `\s` and `[a-zA-Z]` of the pattern. Under `(?i)` the last one also holds
-- the long s (U+017F) and the Kelvin sign (U+212A), which fold to s and k.
unfoldable pub is_number : ℕ → Bool
is_number c = between b'0' b'9' c || eqb c b'.'

unfoldable pub is_gap : ℕ → Bool
is_gap c = eqb c 9 || eqb c 10 || eqb c 12 || eqb c 13 || eqb c 32

unfoldable pub is_letter : ℕ → Bool
is_letter c = between b'a' b'z' c || between b'A' b'Z' c || eqb c 0x17F || eqb c 0x212A

-- The submatches 1 and 2 of `(?i)^([\d.]+)\s*([a-zA-Z]+)$`. No character is in two of the classes,
-- so each repetition takes all that it can.
unfoldable pub find_submatch : List ℕ → Option (List ℕ × List ℕ)
find_submatch s =
    let number = take_while is_number s in
    let rest = drop_while is_gap (drop_while is_number s) in
    if is_nil number || is_nil rest
    then none
    else if is_nil (drop_while is_letter rest)
    then some (number, rest)
    else none

-- `strings.ToUpper` on such letters.
unfoldable pub to_upper : ℕ → ℕ
to_upper c = if between b'a' b'z' c then c - 32 else if eqb c 0x17F then b'S' else c

abbrev pub same : List ℕ → List ℕ → Bool
same [] [] = true
same (a ∷ s) (b ∷ t) = eqb a b && same s t
same _ _ = false

abbrev pub one_of : List ℕ → List ℕ → List ℕ → List ℕ → Bool
one_of u a b c = same u a || same u b || same u c

module _ (f : Float64) where
  open f use {Float, parse_float, of_nat, mul, div}

  -- The `switch unit`.
  unfoldable pub scale : Float → List ℕ → Result Float
  scale value unit =
      if same unit [] || same unit (codes "B")
      then ok (div value (of_nat 1073741824))
      else if one_of unit (codes "K") (codes "KB") (codes "KI")
      then ok (div value (of_nat 1048576))
      else if one_of unit (codes "M") (codes "MB") (codes "MI")
      then ok (div value (of_nat 1024))
      else if one_of unit (codes "G") (codes "GB") (codes "GI")
      then ok value
      else if one_of unit (codes "T") (codes "TB") (codes "TI")
      then ok (mul value (of_nat 1024))
      else if one_of unit (codes "P") (codes "PB") (codes "PI")
      then ok (mul (mul value (of_nat 1024)) (of_nat 1024))
      else err (unknown_unit unit)

  -- What follows the match: `ParseFloat` on the number, then the switch.
  unfoldable pub convert : List ℕ → List ℕ → Result Float
  convert number letters = elim (parse_float number) [
    | ok value ↦ scale value (map to_upper letters)
    | err e ↦ err e
  ]

  unfoldable pub to_gb : List ℕ → Result Float
  to_gb s = elim (find_submatch (trim_space s)) [
    | some (number, letters) ↦ convert number letters
    | none ↦ err (cannot_parse (trim_space s))
  ]
