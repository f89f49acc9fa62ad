-- ===== src/Errors.antt =====
-- crates/guestjs-core/src/errors.rs: the error type of every operation, and `Result`.
-- A message that the source builds with `format!` is kept as its format text with its arguments.
use guestjs.Prelude.{
  ◌⊎◌, inl, inr, ℕ, String, ◌≡◌, refl, Bool, true, false, Option, none, some, arith, List, [], ◌∷◌,
  any,
}
use guestjs.Text.{Str, str_eq}

pub data Message : Type 0 where
  literal : String → Message
  format : String → List Str → Message

pub data BorrowKind : Type 0 where
  shared exclusive : BorrowKind

-- The thrown value itself is a `Box<dyn Any>` of the backend, named by a number.
pub record GuestException : Type 0 where
  pub name : Str
  pub message : Str
  pub stack : Option Str
  pub prototypes : List Str
  pub value : ℕ

pub data Error : Type 0 where
  unexpected : Message → Error
  guest : GuestException → Error
  conversion : Message → Message → Error
  foreign_context : Error
  borrow : BorrowKind → Str → Error
  unsupported : Message → Error
  interrupted : Error
  timeout : Error
  cancelled : Error
  closed : Error
  engine : Message → Error
  imports : Str → Message → Error
  bundle : Message → Error
  host : ℕ → Error

pub data GuestErrorKind : Type 0 where
  error type_error range_error reference_error syntax_error : GuestErrorKind

unfoldable pub guest_kind : Error → GuestErrorKind
guest_kind (conversion _ _) = type_error
guest_kind foreign_context = type_error
guest_kind (borrow _ _) = type_error
guest_kind (unsupported _) = type_error
guest_kind (imports _ _) = reference_error
guest_kind _ = error

-- One test for each variant.
unfoldable pub is_unexpected : Error → Bool
is_unexpected (unexpected _) = true
is_unexpected _ = false

unfoldable pub is_guest : Error → Bool
is_guest (guest _) = true
is_guest _ = false

unfoldable pub is_conversion : Error → Bool
is_conversion (conversion _ _) = true
is_conversion _ = false

unfoldable pub is_foreign_context : Error → Bool
is_foreign_context foreign_context = true
is_foreign_context _ = false

unfoldable pub is_borrow : Error → Bool
is_borrow (borrow _ _) = true
is_borrow _ = false

unfoldable pub is_unsupported : Error → Bool
is_unsupported (unsupported _) = true
is_unsupported _ = false

unfoldable pub is_interrupted : Error → Bool
is_interrupted interrupted = true
is_interrupted _ = false

unfoldable pub is_timeout : Error → Bool
is_timeout timeout = true
is_timeout _ = false

unfoldable pub is_cancelled : Error → Bool
is_cancelled cancelled = true
is_cancelled _ = false

unfoldable pub is_closed : Error → Bool
is_closed closed = true
is_closed _ = false

unfoldable pub is_engine : Error → Bool
is_engine (engine _) = true
is_engine _ = false

unfoldable pub is_import : Error → Bool
is_import (imports _ _) = true
is_import _ = false

unfoldable pub is_bundle : Error → Bool
is_bundle (bundle _) = true
is_bundle _ = false

unfoldable pub is_host : Error → Bool
is_host (host _) = true
is_host _ = false

-- `GuestException::matches`
unfoldable pub matches : GuestException → Str → Bool
matches e name = any (λ prototype. str_eq prototype name) e.prototypes

-- `Result<T, Error>`
pub data Result {ℓ} (T : Type ℓ) : Type ℓ where
  err : Error → Result T
  ok : T → Result T

-- `Option::ok_or_else`
abbrev pub ok_or {ℓ} : {T : Type ℓ} → Option T → Error → Result T
ok_or none missing = err missing
ok_or (some value) missing = ok value

-- the operator `?` in front of the rest of a function
infixl 5 ◌>>=◌
abbrev pub ◌>>=◌ {ℓ κ} : {T : Type ℓ} {U : Type κ} → Result T → (T → Result U) → Result U
err problem >>= rest = err problem
ok value >>= rest = rest value

infixl 5 ◌>>◌
abbrev pub ◌>>◌ {ℓ} : {U : Type ℓ} → Result (Unit {0}) → Result U → Result U
first >> rest = first >>= λ done. rest

-- `Iterator::try_for_each`
abbrev pub try_for_each {ℓ} : {T : Type ℓ} → (T → Result (Unit {0})) → List T → Result (Unit {0})
try_for_each visit [] = ok tt
try_for_each visit (x ∷ xs) = visit x >> try_for_each visit xs

-- What a function that succeeded has got from its first `?`.
pub >>=-eq-ok {ℓ κ} :
    {T : Type ℓ} {U : Type κ} (first : Result T) (rest : T → Result U) {result : U}
    → (first >>= rest) ≡ ok result
    → (value : T) × (first ≡ ok value) × (rest value ≡ ok result)
>>=-eq-ok (err problem) rest h = cc
>>=-eq-ok (ok value) rest h = (value, refl, h)

pub ok_or_sound {ℓ} :
    {T : Type ℓ} (o : Option T) (missing : Error) (value : T)
    → ok_or o missing ≡ ok value
    → o ≡ some value
ok_or_sound none missing value h = cc
ok_or_sound (some x) missing value h = ground arith

-- The two answers of an operation that returns a state beside its result.
pub Answer-cases {ℓ} :
    {A S : Type ℓ} (p : Result A × S)
    → ((a : A) × (s : S) × (p ≡ (ok a, s))) ⊎ ((e : Error) × (s : S) × (p ≡ (err e, s)))
Answer-cases (ok a, s) = inl (a, s, refl)
Answer-cases (err e, s) = inr (e, s, refl)
