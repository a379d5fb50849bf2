-- ===== src/Utils/Size/Layout.antt =====
-- `ToGB` on every text: spaces and the case of the unit do not matter, all else is refused.
use es_snapshot_restore.Base.{
  ℕ, ◌≡◌, refl, true, false, List, [], ◌∷◌, ◌++◌, map, arith, all, Stops, drop_while-append,
  Stops-append, all-reverse, reverse-ne-nil, err, cannot_parse, Option-cases, inl, inr,
}
use mathlib.Core.List.{reverse, reverse-append, reverse-reverse, append_assoc}
use es_snapshot_restore.Utils.Size.{
  Float64, is_space, is_number, is_letter, trim_space, find_submatch, to_upper, convert, to_gb,
}
use es_snapshot_restore.Utils.Size.Grammar.{Matches, find_submatch_complete, find_submatch_sound}

number-not-space : (c : ℕ) → is_number c ≡ true → is_space c ≡ false
unfolding is_number is_space
number-not-space c h = ground arith

letter-not-space : (c : ℕ) → is_letter c ≡ true → is_space c ≡ false
unfolding is_letter is_space
letter-not-space c h = ground arith

-- A text that begins with a number and ends with a letter is what is left of it after trimming.
trim_space-layout :
    (pre post s n g u : List ℕ)
    → Matches s n g u
    → all is_space pre ≡ true
    → all is_space post ≡ true
    → trim_space (pre ++ (s ++ post)) ≡ s
unfolding trim_space
trim_space-layout pre post s n g u m hpre hpost =
    rw (drop_while-append is_space pre (s ++ post) hpre begins) (
      rw (reverse-append s post) (
        rw
          (drop_while-append is_space (reverse post) (reverse s) (all-reverse is_space post hpost)
            ends)
          (reverse-reverse s)))
  where
    begins : Stops is_space (s ++ post)
    begins =
        rw (m.whole, append_assoc n (g ++ u) post)
          (Stops-append is_number is_space number-not-space n ((g ++ u) ++ post) m.some_digit
            m.digits)

    ends : Stops is_space (reverse s)
    ends =
        rw
          (
            m.whole,
            reverse-append n (g ++ u),
            reverse-append g u,
            append_assoc (reverse u) (reverse g) (reverse n),
          )
          (Stops-append is_letter is_space letter-not-space (reverse u) (reverse g ++ reverse n)
            (reverse-ne-nil u m.some_letter) (all-reverse is_letter u m.word))

module _ (f : Float64) where
  -- A number, any blanks and a word, with any white space round them, gives what the number and
  -- the word are converted to, whatever the white space and the blanks.
  pub to_gb-layout :
      (pre post s n g u : List ℕ)
      → Matches s n g u
      → all is_space pre ≡ true
      → all is_space post ≡ true
      → to_gb f (pre ++ (s ++ post)) ≡ convert f n u
  unfolding to_gb
  to_gb-layout pre post s n g u m hpre hpost =
      rw (trim_space-layout pre post s n g u m hpre hpost, find_submatch_complete s n g u m, to_gb)

  -- A text that has no such form is refused, with the trimmed text in the error.
  pub to_gb-rejects :
      (s : List ℕ)
      → ((n g u : List ℕ) → ¬ Matches (trim_space s) n g u)
      → to_gb f s ≡ err (cannot_parse (trim_space s))
  unfolding to_gb
  to_gb-rejects s h = elim (Option-cases (find_submatch (trim_space s))) [
    | inl e ↦ rw (e, to_gb)
    | inr ((n, u), e) ↦ absurd (h n _ u (find_submatch_sound (trim_space s) n u e))
  ]

to_upper_idem : (c : ℕ) → to_upper (to_upper c) ≡ to_upper c
unfolding to_upper
to_upper_idem c = ground arith

map-to_upper_idem : (s : List ℕ) → map to_upper (map to_upper s) ≡ map to_upper s
map-to_upper_idem [] = refl
map-to_upper_idem (c ∷ s) = cc (to_upper_idem c, map-to_upper_idem s)

-- The case of the unit's letters does not matter.
pub convert_case : (f : Float64) (n u : List ℕ) → convert f n (map to_upper u) ≡ convert f n u
unfolding convert
convert_case f n u = ground (arith, map-to_upper_idem u)
