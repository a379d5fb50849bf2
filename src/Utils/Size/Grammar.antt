-- ===== src/Utils/Size/Grammar.antt =====
-- The pattern of `ToGB` against its reading as a grammar: a number, a gap, letters.
use es_snapshot_restore.Base.{
  ℕ, ◌≡◌, refl, ◌≢◌, true, false, some, List, [], ◌∷◌, ◌++◌, ap, sym, arith, is_nil, all,
  take_while, drop_while, Stops, take_while-append, drop_while-append, take_while-append-drop_while,
  all-take_while, drop_while-nil, drop_while-all, ◌↔◌,
}
use es_snapshot_restore.Utils.Size.{is_number, is_gap, is_letter, find_submatch}

-- `s` is `number`, then `gap`, then `letters`, each of its own class, the gap alone possibly empty.
pub record Matches (s number gap letters : List ℕ) : Type 0 where
  pub whole : s ≡ number ++ (gap ++ letters)
  pub digits : all is_number number ≡ true
  pub some_digit : number ≢ []
  pub blanks : all is_gap gap ≡ true
  pub word : all is_letter letters ≡ true
  pub some_letter : letters ≢ []

gap-not-number : (c : ℕ) → is_gap c ≡ true → is_number c ≡ false
unfolding is_gap is_number
gap-not-number c h = ground arith

letter-not-number : (c : ℕ) → is_letter c ≡ true → is_number c ≡ false
unfolding is_letter is_number
letter-not-number c h = ground arith

letter-not-gap : (c : ℕ) → is_letter c ≡ true → is_gap c ≡ false
unfolding is_letter is_gap
letter-not-gap c h = ground arith

letters-Stops : (u : List ℕ) → all is_letter u ≡ true → Stops is_gap u
letters-Stops [] h = tt
letters-Stops (c ∷ u) h = letter-not-gap c (ground arith)

tail-Stops :
    (g u : List ℕ) → all is_gap g ≡ true → all is_letter u ≡ true → Stops is_number (g ++ u)
tail-Stops [] [] hg hu = tt
tail-Stops [] (c ∷ u) hg hu = letter-not-number c (ground arith)
tail-Stops (c ∷ g) u hg hu = gap-not-number c (ground arith)

is_nil-ne : (s : List ℕ) → s ≢ [] → is_nil s ≡ false
is_nil-ne [] h = absurd (h refl)
is_nil-ne (c ∷ s) h = refl

pub find_submatch_complete : (s n g u : List ℕ) → Matches s n g u → find_submatch s ≡ some (n, u)
unfolding find_submatch
find_submatch_complete s n g u m = rw m.whole (
    rw
      (
        take_while-append is_number n (g ++ u) m.digits (tail-Stops g u m.blanks m.word),
        drop_while-append is_number n (g ++ u) m.digits (tail-Stops g u m.blanks m.word),
        drop_while-append is_gap g u m.blanks (letters-Stops u m.word),
        is_nil-ne n m.some_digit,
        is_nil-ne u m.some_letter,
        drop_while-all is_letter u m.word,
      )
      refl)

-- What the function has tested when it reports a match.
find_submatch-tests :
    (s n u : List ℕ)
    → find_submatch s ≡ some (n, u)
    → (n ≡ take_while is_number s)
      × (u ≡ drop_while is_gap (drop_while is_number s))
      × (is_nil n ≡ false)
      × (is_nil u ≡ false)
      × (is_nil (drop_while is_letter u) ≡ true)
unfolding find_submatch
find_submatch-tests s n u h = (ground arith, ground arith, ground arith, ground arith, ground arith)

ne-nil : (s : List ℕ) → is_nil s ≡ false → s ≢ []
ne-nil s h e = cc (ap is_nil e)

nil_of_is_nil : (s : List ℕ) → is_nil s ≡ true → s ≡ []
nil_of_is_nil [] h = refl
nil_of_is_nil (c ∷ s) h = cc

pub find_submatch_sound :
    (s n u : List ℕ)
    → find_submatch s ≡ some (n, u)
    → Matches s n (take_while is_gap (drop_while is_number s)) u
find_submatch_sound s n u h =
    let (en, eu, some_n, some_u, done) = find_submatch-tests s n u h in
    record {
      whole =
          rw (en, eu)
            (rw (take_while-append-drop_while is_gap (drop_while is_number s))
              (sym (take_while-append-drop_while is_number s)));
      digits = rw en (all-take_while is_number s);
      some_digit = ne-nil n some_n;
      blanks = all-take_while is_gap (drop_while is_number s);
      word = drop_while-nil is_letter u (nil_of_is_nil _ done);
      some_letter = ne-nil u some_u;
    }

-- The pattern matches just the texts of the grammar: a match with these two submatches is reported
-- if and only if the text is the first, some blanks, and the second.
pub find_submatch_iff :
    (s n u : List ℕ) → (find_submatch s ≡ some (n, u)) ↔ ((g : List ℕ) × Matches s n g u)
find_submatch_iff s n u =
    (λ h. (_, find_submatch_sound s n u h), λ (g, m). find_submatch_complete s n g u m)
