-- ===== src/Tests/Arrays.antt =====
-- Runs of crates/guestjs-core/src/marshal/primitives.rs and marshal/collections.rs, on an engine
-- whose values are numbers, texts and arrays.
use guestjs.Prelude.{
  ℕ, zero, suc, ◌≡◌, refl, sym, ap, ◌∙◌, true, leb, ◌≤◌, List, [], ◌∷◌, ◌++◌, arith, length, subst,
  Bool-cases, inl, inr, if◌then◌else◌, ◌<◌, ◌+◌, ◌-◌, ◌*◌, ◌/◌,
}
use guestjs.Text.{Str, codes, str_eq}
use guestjs.Errors.{Result, ok, err, unexpected, literal}
use guestjs.Marshal.Nullish.{Kind, number, string, array}
use guestjs.Marshal.Integers.{
  ℤ, pos, negsuc, abs, fits, u8, usize, max_safe_integer, Numbers, integer_to, integer_from,
  number_of,
}
use guestjs.Marshal.Integers.Ranges.{RoundsAs, safe_or_refused, integer_to-safe}
use guestjs.Marshal.Integers.RoundTrip.{ReadsBack, integer_from-integer_to}
use guestjs.Marshal.Collections.{Arrays, Conversion, vec_to, vec_from, array_from, of_length}
use guestjs.Marshal.Collections.Reads.{Keeps}
use guestjs.Marshal.Collections.RoundTrip.{vec_from-vec_to}

data Js : Type 0 where
  js_number : ℤ → Js
  js_text : Str → Js
  js_array : ℕ → (ℕ → Js) → Js

abbrev js_kind : Js → Kind
js_kind (js_number n) = number
js_kind (js_text t) = string
js_kind (js_array n items) = array

abbrev js_integer : Js → Result ℤ
js_integer (js_number n) =
    if fits guestjs.Marshal.Integers.i64 n then ok n else err (unexpected (literal "range"))
js_integer _ = err (unexpected (literal "number"))

-- Beyond 2^53 the numbers are even; odd ones are rounded towards 0.
abbrev coarse : ℤ → ℤ
coarse (pos n) = pos (if leb n 9007199254740992 then n else (n / 2) * 2)
coarse (negsuc n) = negsuc (if leb (n + 1) 9007199254740992 then n else ((n + 1) / 2) * 2 - 1)

abbrev js_numbers : Numbers ℕ Js
js_numbers = record {
  as_f64 = coarse;
  to_string = λ n. codes "number";
  kind = λ v s. js_kind v;
  new_number = λ n s. (js_number n, s);
  as_i64 = λ v s. (js_integer v, s);
}

coarse_exact : (n : ℤ) → abs n ≤ 9007199254740992 → coarse n ≡ n
unfolding abs
coarse_exact (pos n) small = ground (arith, small)
coarse_exact (negsuc n) small = ground (arith, small)

coarse_beyond : (n : ℤ) → 9007199254740992 < abs n → max_safe_integer < abs (coarse n)
unfolding abs
coarse_beyond (pos n) big = ground (arith, big)
coarse_beyond (negsuc n) big = ground (arith, big)

coarse-RoundsAs : RoundsAs js_numbers
coarse-RoundsAs = record { exact = coarse_exact; beyond = coarse_beyond }

safe_i64 : (n : ℤ) → abs n ≤ max_safe_integer → js_integer (js_number n) ≡ ok n
unfolding abs fits guestjs.Marshal.Integers.fits_in guestjs.Marshal.Integers.bits
    guestjs.Marshal.Integers.is_signed
safe_i64 (pos n) small = ground (arith, small)
safe_i64 (negsuc n) small = ground (arith, small)

js-ReadsBack : ReadsBack js_numbers
js-ReadsBack = record {
  kind = λ n s. refl;
  value = λ n s small. ap (λ r. (r, s)) (safe_i64 n small);
}

integer_to-safe_example :
    integer_to js_numbers usize (pos 9007199254740992) 0
    ≡ safe_or_refused js_numbers (pos 9007199254740992) 0
unfolding fits guestjs.Marshal.Integers.fits_in guestjs.Marshal.Integers.bits
    guestjs.Marshal.Integers.is_signed
integer_to-safe_example =
    integer_to-safe js_numbers usize (pos 9007199254740992) 0 coarse-RoundsAs refl

integer_from-integer_to_example :
    integer_from js_numbers u8 (js_number (pos 200)) 0 ≡ (ok (pos 200), 0)
unfolding fits integer_to
integer_from-integer_to_example =
    integer_from-integer_to js_numbers u8 (pos 200) 0 0 (js_number (pos 200)) coarse-RoundsAs
      js-ReadsBack refl refl

js_i64 :
    (v : Js) (r x : ℕ) (m : ℤ)
    → js_numbers.as_i64 v r ≡ (ok m, x)
    → fits guestjs.Marshal.Integers.i64 m ≡ true
js_i64 (js_number n) r x m h = elim (Bool-cases (fits guestjs.Marshal.Integers.i64 n)) [
  | inl e ↦
      let same : n ≡ m = ground (arith, h, e) in
      subst (λ y. fits guestjs.Marshal.Integers.i64 y ≡ true) same e
  | inr e ↦ absurd (ground (arith, h, e))
]
js_i64 (js_text t) r x m h = absurd (ground arith)
js_i64 (js_array n items) r x m h = absurd (ground arith)

abbrev nth : List Js → ℕ → Js
nth [] index = js_text []
nth (v ∷ vs) zero = v
nth (v ∷ vs) (suc index) = nth vs index

nth-append : (before after : List Js) (x : Js) → nth (before ++ (x ∷ after)) (length before) ≡ x
nth-append [] after x = refl
nth-append (v ∷ before) after x = nth-append before after x

-- Of the properties that have a name, an array has its length.
abbrev js_get : Js → Js → Result Js
js_get (js_array n items) (js_number (pos index)) = ok (items index)
js_get (js_array n items) (js_text t) =
    if str_eq t (codes "length") then ok (js_number (pos n)) else err (unexpected (literal "name"))
js_get _ _ = err (unexpected (literal "object"))

abbrev js_new : List Js → ℕ → Result Js × ℕ
js_new vs s =
    if leb (length vs) max_safe_integer
    then (ok (js_array (length vs) (nth vs)), suc s)
    else (err (unexpected (literal "length")), s)

abbrev js_given : ℤ → ℕ → Result Js × ℕ
js_given n s =
    if leb (abs n) max_safe_integer
    then (ok (js_number n), s)
    else (err (unexpected (literal "unsafe")), s)

-- the state counts the values that were made
abbrev js_arrays : Arrays ℕ Js
js_arrays = record {
  numbers = js_numbers;
  new_null = λ s. (js_text [], s);
  new_string = λ t s. (ok (js_text t), s);
  new_array = js_new;
  get = λ v key s. (js_get v key, s);
}

abbrev plain : Conversion ℕ Js ℤ
plain = record { to = js_given; from = λ v s. (js_integer v, s) }

abbrev IsArrayOf : ℕ → Js → List Js → Type 0
IsArrayOf s v vs = (v ≡ js_array (length vs) (nth vs)) × (length vs ≤ max_safe_integer)

-- the numbers that the conversion takes back
abbrev IsNamed : ℕ → Js → Str → Type 0
IsNamed s v text = v ≡ js_text text

abbrev IsIndex : ℕ → Js → ℤ → Type 0
IsIndex s v n = v ≡ js_number n

abbrev IsNumberOf : ℕ → Js → ℤ → Type 0
IsNumberOf s v n = js_integer v ≡ ok n

js_given_sound : (x : ℤ) (s t : ℕ) (v : Js) → js_given x s ≡ (ok v, t) → js_integer v ≡ ok x
js_given_sound x s t v h = elim (Bool-cases (leb (abs x) max_safe_integer)) [
  | inl e ↦
      let same : js_number x ≡ v = ground (arith, h, e) in
      ap js_integer (sym same) ∙ safe_i64 x (ground arith)
  | inr e ↦ absurd (ground (arith, h, e))
]

js_new_sound : (vs : List Js) (s t : ℕ) (v : Js) → js_new vs s ≡ (ok v, t) → IsArrayOf t v vs
js_new_sound vs s t v h = elim (Bool-cases (leb (length vs) max_safe_integer)) [
  | inl e ↦
      let same : js_array (length vs) (nth vs) ≡ v = ground (arith, h, e) in
      (sym same, ground arith)
  | inr e ↦ absurd (ground (arith, h, e))
]

long_enough : (n : ℕ) → n ≤ max_safe_integer → abs (pos n) ≤ max_safe_integer
unfolding abs
long_enough n h = h

js-Keeps : Keeps js_arrays plain (λ s t. Unit {0}) IsArrayOf IsNumberOf IsNamed IsIndex
unfolding str_eq
js-Keeps = record {
  same = λ s. tt;
  further = λ r s t e f. tt;
  still_holds = λ s t v vs e h. h;
  still_means = λ s t v x e m. m;
  given = λ x s t v h. (tt, js_given_sound x s t v h);
  taken = λ x s v m. ap (λ r. (r, s)) m;
  made = λ vs s t v h. (tt, js_new_sound vs s t v h);
  kind = λ s v vs h. ap js_kind h.0;
  rounds = coarse-RoundsAs;
  text_made = λ text s. (js_text text, s, tt, refl, refl);
  number_made = λ n s. (tt, refl);
  length_got = λ s v k vs h named. (
    js_number (pos (length vs)),
    s,
    tt,
    rw (h.0, named) refl,
    refl,
    ap (λ r. (r, s)) (safe_i64 (pos (length vs)) (long_enough (length vs) h.1)),
  );
  element_got = λ s v k x before after h index.
      (s, tt, rw (h.0, index) (ap (λ w. (ok w, s)) (nth-append before after x)));
}

two_numbers :
    vec_to js_arrays plain (pos 3 ∷ (pos 4 ∷ [])) 0
    ≡ (ok (js_array 2 (nth (js_number (pos 3) ∷ (js_number (pos 4) ∷ [])))), 1)
unfolding vec_to abs
two_numbers = refl

vec_from-vec_to_example :
    (u : ℕ) × Unit {0}
    × (vec_from js_arrays plain (js_array 2 (nth (js_number (pos 3) ∷ (js_number (pos 4) ∷ [])))) 1
        ≡ (ok (pos 3 ∷ (pos 4 ∷ [])), u))
    × ((n : ℕ)
        → array_from js_arrays plain n
            (js_array 2 (nth (js_number (pos 3) ∷ (js_number (pos 4) ∷ []))))
            1
          ≡ of_length js_arrays n (pos 3 ∷ (pos 4 ∷ [])) u)
vec_from-vec_to_example =
    vec_from-vec_to js_arrays plain (λ s t. Unit {0}) IsArrayOf IsNumberOf IsNamed IsIndex js-Keeps
      (pos 3 ∷ (pos 4 ∷ [])) 0 1 1 (js_array 2 (nth (js_number (pos 3) ∷ (js_number (pos 4) ∷ []))))
      (omega arith) two_numbers tt
