-- ===== src/Utils/Random/Names.antt =====
-- Which texts are drawn, and which of them may stand in the name of a Kubernetes object.
use es_snapshot_restore.Base.{
  ℕ, zero, suc, ◌+◌, ◌<◌, ◌≡◌, refl, Bool, true, false, not, ◌&&◌, ◌||◌, Option, none, some, List,
  [], ◌∷◌, arith, leb, length, all,
}
use es_snapshot_restore.Utils.Random.{charset, get_elem?, random_string}

abbrev between : ℕ → ℕ → ℕ → Bool
between lo hi c = leb lo c && leb c hi

-- A small letter or a digit, as in the names of Kubernetes objects.
abbrev pub is_name_char : ℕ → Bool
is_name_char c = between b'a' b'z' c || between b'0' b'9' c

abbrev pub is_alphanumeric : ℕ → Bool
is_alphanumeric c = is_name_char c || between b'A' b'Z' c

-- None of the `n` draws from `i` on is the place of a capital.
abbrev pub no_capital : (ℕ → ℕ) → ℕ → ℕ → Bool
no_capital draw i zero = true
no_capital draw i (suc n) = not (between 26 51 (draw i)) && no_capital draw (suc i) n

abbrev agree : Bool → Bool → Bool
agree true b = b
agree false b = not b

abbrev fits : ℕ → Option ℕ → Bool
fits k none = false
fits k (some c) = is_alphanumeric c && agree (is_name_char c) (not (between 26 51 k))

-- The charset from the place `k` on.
abbrev all_fit : ℕ → List ℕ → Bool
all_fit k [] = true
all_fit k (c ∷ cs) = fits k (some c) && all_fit (suc k) cs

and_true : (a b : Bool) → a && b ≡ true → (a ≡ true) × (b ≡ true)
and_true true b h = (refl, h)
and_true false b h = cc

eq_of_agree : (a b : Bool) → agree a b ≡ true → a ≡ b
eq_of_agree true b h = cc
eq_of_agree false true h = cc
eq_of_agree false false h = refl

get_elem?-fits :
    (cs : List ℕ) (k j m : ℕ)
    → k + j ≡ m
    → all_fit k cs ≡ true
    → j < length cs
    → (c : ℕ) × (get_elem? cs j ≡ some c)
      × (is_alphanumeric c ≡ true)
      × (is_name_char c ≡ not (between 26 51 m))
get_elem?-fits [] k j m e h lt = absurd (omega arith)
get_elem?-fits (c ∷ cs) k zero m e h lt =
    let first = and_true (fits k (some c)) (all_fit (suc k) cs) h in
    let (letter, name) = and_true (is_alphanumeric c) _ first.0 in
    let same : k ≡ m = omega arith in
    (c, refl, letter, rw (← same) (eq_of_agree (is_name_char c) (not (between 26 51 k)) name))
get_elem?-fits (c ∷ cs) k (suc j) m e h lt =
    get_elem?-fits cs (suc k) j m (omega arith)
      (and_true (fits k (some c)) (all_fit (suc k) cs) h).1 (omega arith)

charset_fits : all_fit 0 charset ≡ true
charset_fits = refl

-- If every number that is drawn is below 62, then no index is out of range, and the text has the
-- length that was asked for and letters and digits alone; it may stand in the name of a Kubernetes
-- object, which has no capitals, just if no draw is from 26 to 51.
pub random_string_bounds :
    (draw : ℕ → ℕ)
    → ((i : ℕ) → draw i < 62)
    → (i n : ℕ)
    → (s : List ℕ) × (random_string draw i n ≡ some s)
      × (length s ≡ n)
      × (all is_alphanumeric s ≡ true)
      × (all is_name_char s ≡ no_capital draw i n)
unfolding random_string
random_string_bounds draw below i zero = ([], refl, refl, refl, refl)
random_string_bounds draw below i (suc n) =
    let (c, found, letter, name) =
      get_elem?-fits charset 0 (draw i) (draw i) (omega arith) charset_fits
        (omega (arith, below i)) in
    let (s, rest, long, letters, names) = random_string_bounds draw below (suc i) n in
    (c ∷ s, rw (found, rest) refl, omega (arith, long), rw letter letters, rw (name, names) refl)
