-- ===== src/Base/Errors.antt =====
-- Go's error values. A function that returns `(T, error)` is modelled by `Result T`; a function
-- that returns `error` alone by `Option Error`, with `none` for nil.
use Prim.Native.Nat.{ℕ}
use es_snapshot_restore.Base.Ints.{ℤ}
use Prim.Native.String.{String}
use mathlib.Core.Path.{◌≡◌, refl}
use mathlib.Core.Option.{Option, none, some}
use mathlib.Core.List.{List}

-- An error, by where it is made: the API server's "not found", one of the outside libraries'
-- others, or one of the `fmt.Errorf` calls of this repository, with what its text is made of.
pub data Error : Type 0 where
  not_found : Error
  external : String → Error
  cannot_parse : List ℕ → Error
  unknown_unit : List ℕ → Error
  bad_time : String → Error
  bad_scan : Error
  not_owned : String → String → Error
  timed_out : String → ℤ → Error
  restore_refused : List String → String → String → Error

pub data Result {ℓ} (A : Type ℓ) : Type ℓ where
  ok : A → Result A
  err : Error → Result A

-- `client.IgnoreNotFound`.
abbrev pub ignore_not_found : Error → Option Error
ignore_not_found not_found = none
ignore_not_found e = some e

-- `if err != nil { return ..., err }` after a call.
infixl 5 ◌>>=◌
abbrev pub ◌>>=◌ {ℓ κ} : {T : Type ℓ} {U : Type κ} → Result T → (T → Result U) → Result U
err failure >>= next = err failure
ok value >>= next = next value

-- If the whole succeeds, so does the call, and what follows it.
pub >>=-eq-ok {ℓ κ} :
    {T : Type ℓ} {U : Type κ} {y : U} (call : Result T) (next : T → Result U)
    → (call >>= next) ≡ ok y
    → (x : T) × (next x ≡ ok y) × (call ≡ ok x)
>>=-eq-ok (err failure) next whole = cc whole
>>=-eq-ok (ok value) next whole = (value, whole, refl)
