-- ===== src/Base/Spans.antt =====
-- Splitting a list where a test first fails.
use mathlib.Core.Path.{◌≡◌, refl, ap, sym, ◌∙◌}
use mathlib.Core.Logic.{◌≢◌}
use mathlib.Core.Bool.{Bool, true, false}
use mathlib.Core.List.{List, [], ◌∷◌, ◌++◌, reverse, reverse-append, reverse-reverse}
use native.Mathlib.Omega.{arith}
use es_snapshot_restore.Base.Lists.{take_while, drop_while, all}

module _ {ℓ} {A : Type ℓ} (p : A → Bool) where
  -- `ys` does not go on with what `p` accepts.
  abbrev pub Stops : List A → Type 0
  Stops [] = Unit
  Stops (y ∷ ys) = p y ≡ false

  pub take_while-append :
      (xs ys : List A) → all p xs ≡ true → Stops ys → take_while p (xs ++ ys) ≡ xs
  take_while-append [] [] h s = refl
  take_while-append [] (y ∷ ys) h s = rw s
  take_while-append (x ∷ xs) ys h s = ground (arith, take_while-append xs ys (ground arith) s)

  pub drop_while-append :
      (xs ys : List A) → all p xs ≡ true → Stops ys → drop_while p (xs ++ ys) ≡ ys
  drop_while-append [] [] h s = refl
  drop_while-append [] (y ∷ ys) h s = rw s
  drop_while-append (x ∷ xs) ys h s = ground (arith, drop_while-append xs ys (ground arith) s)

  pub take_while-append-drop_while : (xs : List A) → take_while p xs ++ drop_while p xs ≡ xs
  take_while-append-drop_while [] = refl
  take_while-append-drop_while (x ∷ xs) = ground (arith, take_while-append-drop_while xs)

  pub all-take_while : (xs : List A) → all p (take_while p xs) ≡ true
  all-take_while [] = refl
  all-take_while (x ∷ xs) = ground (arith, all-take_while xs)

  pub drop_while-nil : (xs : List A) → drop_while p xs ≡ [] → all p xs ≡ true
  drop_while-nil [] h = refl
  drop_while-nil (x ∷ xs) h = ground (arith, drop_while-nil xs)

  pub drop_while-all : (xs : List A) → all p xs ≡ true → drop_while p xs ≡ []
  drop_while-all [] h = refl
  drop_while-all (x ∷ xs) h = ground (arith, drop_while-all xs (ground arith))

  pub drop_while-of-Stops : (xs : List A) → Stops xs → drop_while p xs ≡ xs
  drop_while-of-Stops [] h = refl
  drop_while-of-Stops (x ∷ xs) h = rw (h, drop_while)

-- A non-empty run of one class stops every test that fails throughout the class.
pub Stops-append {ℓ} :
    {A : Type ℓ} (p q : A → Bool)
    → ((c : A) → p c ≡ true → q c ≡ false)
    → (xs ys : List A) → xs ≢ []
    → all p xs ≡ true
    → Stops q (xs ++ ys)
Stops-append p q apart [] ys some_x h = absurd (some_x refl)
Stops-append p q apart (x ∷ xs) ys some_x h = apart x (ground arith)

pub all-append {ℓ} :
    {A : Type ℓ} (p : A → Bool) (xs ys : List A)
    → all p xs ≡ true
    → all p ys ≡ true
    → all p (xs ++ ys) ≡ true
all-append p [] ys h k = k
all-append p (x ∷ xs) ys h k = ground (arith, all-append p xs ys (ground arith) k)

pub all-reverse {ℓ} :
    {A : Type ℓ} (p : A → Bool) (xs : List A) → all p xs ≡ true → all p (reverse xs) ≡ true
all-reverse p [] h = refl
all-reverse p (x ∷ xs) h =
    rw (reverse-append (x ∷ []) xs)
      (all-append p (reverse xs) (x ∷ []) (all-reverse p xs (ground arith)) (ground arith))

pub reverse-ne-nil {ℓ} : {A : Type ℓ} (xs : List A) → xs ≢ [] → reverse xs ≢ []
reverse-ne-nil xs h e = h (sym (reverse-reverse xs) ∙ ap reverse e)
