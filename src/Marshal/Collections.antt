-- ===== src/Marshal/Collections.antt =====
-- The arrays of crates/guestjs-core/src/marshal/collections.rs: `Elements`, `Vec<T>`, `[T; N]` and
-- `Option<T>`. The engine's functions act on the guest's state `S`; the conversion of an element is
-- any pair of such functions.
pub mod Reads
pub mod RoundTrip
use guestjs.Prelude.{
  ℕ, zero, suc, ◌+◌, ◌==◌, if◌then◌else◌, Option, none, some, List, [], ◌∷◌, length,
}
use guestjs.Text.{Str, codes}
use guestjs.Errors.{Error, Result, ok, err, conversion, format}
use guestjs.Marshal.Nullish.{Kind, array, undefined_kind, null_kind}
use guestjs.Marshal.Describe.{describe, mismatch}
use guestjs.Marshal.Integers.{ℤ, pos, negsuc, usize, Numbers, integer_to, integer_from}

-- the operator `?` between operations on the state
abbrev pub and_then : {S A B : Type 0} → (A → S → Result B × S) → Result A × S → Result B × S
and_then rest (ok a, s) = rest a s
and_then rest (err e, s) = (err e, s)

pub record Arrays (S V : Type 0) : Type 0 where
  pub numbers : Numbers S V
  pub new_null : S → V × S
  pub new_string : Str → S → Result V × S
  pub new_array : List V → S → Result V × S
  pub get : V → V → S → Result V × S

-- `ToGuest` and `FromGuest` of the elements
pub record Conversion (S V T : Type 0) : Type 0 where
  pub to : T → S → Result V × S
  pub from : V → S → Result T × S

-- A `usize` is never negative.
unfoldable pub count_of : ℤ → ℕ
count_of (pos n) = n
count_of (negsuc n) = 0

module _ {S V : Type 0} (arrays : Arrays S V) where
  unfoldable pub read_length : V → S → Result ℤ × S
  read_length v s =
      and_then (λ l. integer_from arrays.numbers usize l)
        (and_then (λ key. arrays.get v key) (arrays.new_string (codes "length") s))

  unfoldable pub read_element : V → ℕ → S → Result V × S
  read_element v index s =
      and_then (λ key. arrays.get v key) (integer_to arrays.numbers usize (pos index) s)

  -- `collect` stops at the first error.
  unfoldable pub read_from : ℕ → ℕ → V → S → Result (List V) × S
  unfolding read_element
  read_from zero index v s = (ok [], s)
  read_from (suc count) index v s =
      and_then (λ x t. and_then (λ xs u. (ok (x ∷ xs), u)) (read_from count (index + 1) v t))
        (read_element v index s)

  unfoldable pub elements_of_kind : Kind → V → S → Result (List V) × S
  unfolding read_from read_length count_of
  elements_of_kind array v s =
      and_then (λ count t. read_from (count_of count) 0 v t) (read_length v s)
  elements_of_kind kind v s = (err (mismatch (describe (codes "array" ∷ []) []) kind), s)

  -- `Elements::read`
  unfoldable pub read_elements : V → S → Result (List V) × S
  unfolding elements_of_kind
  read_elements v s = elements_of_kind (arrays.numbers.kind v s) v s

  -- the test of `try_into` on the number of values
  unfoldable pub of_length : {A : Type 0} → ℕ → List A → S → Result (List A) × S
  of_length n values s = if length values == n then (ok values, s) else (
    err (
        conversion (format "array of length {N}" (arrays.numbers.to_string (pos n) ∷ []))
          (format "array of length {}" (arrays.numbers.to_string (pos (length values)) ∷ []))),
    s,
  )

  module _ {T : Type 0} (inner : Conversion S V T) where
    unfoldable pub to_each : List T → S → Result (List V) × S
    to_each [] s = (ok [], s)
    to_each (x ∷ xs) s =
        and_then (λ v t. and_then (λ vs u. (ok (v ∷ vs), u)) (to_each xs t)) (inner.to x s)

    unfoldable pub from_each : List V → S → Result (List T) × S
    from_each [] s = (ok [], s)
    from_each (v ∷ vs) s =
        and_then (λ x t. and_then (λ xs u. (ok (x ∷ xs), u)) (from_each vs t)) (inner.from v s)

    unfoldable pub vec_to : List T → S → Result V × S
    unfolding to_each
    vec_to xs s = and_then (λ vs. arrays.new_array vs) (to_each xs s)

    unfoldable pub vec_from : V → S → Result (List T) × S
    unfolding read_elements from_each
    vec_from v s = and_then (λ vs. from_each vs) (read_elements v s)

    -- `[T; N]`, whose elements are as many as the type says
    unfoldable pub array_to : List T → S → Result V × S
    unfolding vec_to
    array_to xs s = vec_to xs s

    unfoldable pub array_from : ℕ → V → S → Result (List T) × S
    unfolding vec_from of_length
    array_from n v s = and_then (λ xs. of_length n xs) (vec_from v s)

    unfoldable pub option_to : Option T → S → Result V × S
    option_to none s = let (v, t) = arrays.new_null s in (ok v, t)
    option_to (some x) s = inner.to x s

    unfoldable pub option_of_kind : Kind → V → S → Result (Option T) × S
    option_of_kind undefined_kind v s = (ok none, s)
    option_of_kind null_kind v s = (ok none, s)
    option_of_kind kind v s = and_then (λ x t. (ok (some x), t)) (inner.from v s)

    unfoldable pub option_from : V → S → Result (Option T) × S
    unfolding option_of_kind
    option_from v s = option_of_kind (arrays.numbers.kind v s) v s
