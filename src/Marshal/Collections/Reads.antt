-- ===== src/Marshal/Collections/Reads.antt =====
-- How an array is read (`Elements::read` of crates/guestjs-core/src/marshal/collections.rs), by what
-- the engine promises of arrays and of their keys.
use guestjs.Prelude.{
  ℕ, ◌≡◌, refl, sym, ap, ◌∙◌, ◌+◌, List, [], ◌∷◌, ◌++◌, arith, subst, ◌≤◌, append_assoc, length,
  length-append, true, leb,
}
use guestjs.Errors.{ok}
use guestjs.Text.{Str, codes}
use guestjs.Marshal.Nullish.{array, number}
use guestjs.Marshal.Integers.{
  ℤ, pos, abs, fits, usize, max_safe_integer, number_of, integer_to, integer_from, i64_from,
  i64_of_kind,
}
use guestjs.Marshal.Integers.Ranges.{RoundsAs, given_if, integer_to-safe}
use guestjs.Marshal.Integers.RoundTrip.{integer_from-i64}
use guestjs.Marshal.Collections.{
  and_then, Arrays, Conversion, count_of, read_length, read_element, read_from, elements_of_kind,
  read_elements,
}

-- The documented behaviour of the engine on the arrays that the host makes, on the texts and the
-- numbers that it makes as keys, and of a conversion of the elements. A state that extends another
-- one holds what that one holds.
pub record Keeps {S V T : Type 0} (arrays : Arrays S V) (inner : Conversion S V T)
    (Extends : S → S → Type 0) (Holds : S → V → List V → Type 0) (Means : S → V → T → Type 0)
    (IsText : S → V → Str → Type 0) (IsNumber : S → V → ℤ → Type 0) : Type 0 where
  pub same : (s : S) → Extends s s
  pub further : (r s t : S) → Extends r s → Extends s t → Extends r t
  pub still_holds : (s t : S) (v : V) (vs : List V) → Extends s t → Holds s v vs → Holds t v vs
  pub still_means : (s t : S) (v : V) (x : T) → Extends s t → Means s v x → Means t v x
  pub given : (x : T) (s t : S) (v : V) → inner.to x s ≡ (ok v, t) → Extends s t × Means t v x
  pub taken : (x : T) (s : S) (v : V) → Means s v x → inner.from v s ≡ (ok x, s)
  pub made :
      (vs : List V) (s t : S) (v : V)
      → arrays.new_array vs s ≡ (ok v, t)
      → Extends s t × Holds t v vs
  pub kind : (s : S) (v : V) (vs : List V) → Holds s v vs → arrays.numbers.kind v s ≡ array
  pub rounds : RoundsAs arrays.numbers
  pub text_made :
      (text : Str) (s : S)
      → (k : V) × (t : S) × Extends s t × IsText t k text × (arrays.new_string text s ≡ (ok k, t))
  pub number_made :
      (n : ℤ) (s : S)
      → Extends s (arrays.numbers.new_number n s).1
        × IsNumber (arrays.numbers.new_number n s).1 (arrays.numbers.new_number n s).0 n
  -- the property of an array that has the name "length" is a number
  pub length_got :
      (s : S) (v k : V) (vs : List V)
      → Holds s v vs
      → IsText s k (codes "length")
      → (l : V) × (t : S) × Extends s t
        × (arrays.get v k s ≡ (ok l, t))
        × (arrays.numbers.kind l t ≡ number)
        × (arrays.numbers.as_i64 l t ≡ (ok (pos (length vs)), t))
  -- the property at an index is the element there
  pub element_got :
      (s : S) (v k x : V) (before after : List V)
      → Holds s v (before ++ (x ∷ after))
      → IsNumber s k (pos (length before))
      → (t : S) × Extends s t × (arrays.get v k s ≡ (ok x, t))

module _ {S V T : Type 0} (arrays : Arrays S V) (inner : Conversion S V T)
    (Extends : S → S → Type 0) (Holds : S → V → List V → Type 0) (Means : S → V → T → Type 0)
    (IsText : S → V → Str → Type 0) (IsNumber : S → V → ℤ → Type 0)
    (keeps : Keeps arrays inner Extends Holds Means IsText IsNumber) where
  usize_fits : (n : ℕ) → n ≤ max_safe_integer → fits usize (pos n) ≡ true
  unfolding fits guestjs.Marshal.Integers.fits_in guestjs.Marshal.Integers.bits
      guestjs.Marshal.Integers.is_signed
  usize_fits n short = ground arith

  length_read :
      (s : S) (v : V) (vs : List V)
      → Holds s v vs
      → length vs ≤ max_safe_integer
      → (t : S) × Extends s t × (read_length arrays v s ≡ (ok (pos (length vs)), t))
  unfolding read_length i64_from i64_of_kind
  length_read s v vs holds short =
      let (k, t, e, text, named) = keeps.text_made (codes "length") s in
      let (l, u, f, got, is_number, value) =
        keeps.length_got t v k vs (keeps.still_holds s t v vs e holds) text in
      let counted : i64_from arrays.numbers l u ≡ (ok (pos (length vs)), u) =
        ap (λ d. i64_of_kind arrays.numbers d l u) is_number ∙ value in
      (
        u,
        keeps.further s t u e f,
        ap
              (λ r.
                and_then (λ x. integer_from arrays.numbers usize x)
                  (and_then (λ key. arrays.get v key) r))
              named
            ∙ (ap (and_then (λ x. integer_from arrays.numbers usize x)) got
                ∙ integer_from-i64 arrays.numbers usize l u u (pos (length vs)) counted
                    (usize_fits (length vs) short)),
      )

  index_made :
      (n : ℕ) (s : S)
      → n ≤ max_safe_integer
      → integer_to arrays.numbers usize (pos n) s ≡ number_of arrays.numbers (pos n) s
  unfolding abs
  index_made n s short =
      let safe : leb n max_safe_integer ≡ true = ground arith in
      integer_to-safe arrays.numbers usize (pos n) s keeps.rounds (usize_fits n short)
      ∙ ap (λ b. given_if arrays.numbers b (pos n) (pos n) s) safe

  element_read :
      (s : S) (v x : V) (before after : List V)
      → Holds s v (before ++ (x ∷ after))
      → length before ≤ max_safe_integer
      → (t : S) × Extends s t × (read_element arrays v (length before) s ≡ (ok x, t))
  unfolding read_element number_of
  element_read s v x before after holds short =
      let key = arrays.numbers.new_number (pos (length before)) s in
      let (e, is_index) = keeps.number_made (pos (length before)) s in
      let (t, f, got) =
        keeps.element_got (key.1) v (key.0) x before after
          (keeps.still_holds s (key.1) v (before ++ (x ∷ after)) e holds) is_index in
      (
        t,
        keeps.further s (key.1) t e f,
        ap (and_then (λ k. arrays.get v k)) (index_made (length before) s short) ∙ got,
      )

  read_from-Holds :
      (whole before after : List V) (index : ℕ) (s : S) (v : V)
      → whole ≡ before ++ after
      → index ≡ length before
      → Holds s v whole
      → length whole ≤ max_safe_integer
      → (t : S) × Extends s t × (read_from arrays (length after) index v s ≡ (ok after, t))
  unfolding read_from
  read_from-Holds whole before [] index s v w i holds short = (s, keeps.same s, refl)
  read_from-Holds whole before (x ∷ after) index s v w i holds short =
      let bound : length before ≤ max_safe_integer =
        omega (arith, ap length w, length-append before (x ∷ after), short) in
      let (t, e, one) = element_read s v x before after (subst (λ q. Holds s v q) w holds) bound in
      let (u, f, others) =
        read_from-Holds whole (before ++ (x ∷ [])) after (index + 1) t v
          (w ∙ sym (append_assoc before (x ∷ []) after))
          (omega (arith, i, length-append before (x ∷ []))) (keeps.still_holds s t v whole e holds)
          short in
      (
        u,
        keeps.further s t u e f,
        ap
              (and_then (λ y r.
                and_then (λ ys q. (ok (y ∷ ys), q))
                  (read_from arrays (length after) (index + 1) v r)))
              (ap (λ n. read_element arrays v n s) i ∙ one)
            ∙ ap (and_then (λ ys q. (ok (x ∷ ys), q))) others,
      )

  pub read_elements-Holds :
      (vs : List V) (s : S) (v : V)
      → Holds s v vs
      → length vs ≤ max_safe_integer
      → (t : S) × Extends s t × (read_elements arrays v s ≡ (ok vs, t))
  unfolding read_elements elements_of_kind count_of
  read_elements-Holds vs s v holds short =
      let (t, e, counted) = length_read s v vs holds short in
      let (u, f, all_read) =
        read_from-Holds vs [] vs 0 t v refl refl (keeps.still_holds s t v vs e holds) short in
      (
        u,
        keeps.further s t u e f,
        ap (λ k. elements_of_kind arrays k v s) (keeps.kind s v vs holds)
            ∙ (ap (and_then (λ count r. read_from arrays (count_of count) 0 v r)) counted
                ∙ all_read),
      )
