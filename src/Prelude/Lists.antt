-- ===== src/Prelude/Lists.antt =====
-- Lists measured by native numbers, the Boolean quantifiers, and `Vec`'s push and pop.
use Prim.Native.Nat.{ℕ, zero, suc, ◌+◌}
use mathlib.Core.Path.{◌≡◌, refl, ap, ◌∙◌}
use mathlib.Core.Logic.{inl, inr}
use guestjs.Prelude.Tests.{Option-cases}
use mathlib.Core.Bool.{Bool, true, false, ◌&&◌, ◌||◌}
use mathlib.Core.List.{List, [], ◌∷◌, ◌++◌}
use mathlib.Core.Option.{Option, none, some}
use native.Mathlib.Omega.{arith}

module _ {ℓ} {A : Type ℓ} where
  abbrev pub length : List A → ℕ
  length [] = 0
  length (x ∷ xs) = suc (length xs)

  abbrev pub all : (A → Bool) → List A → Bool
  all p [] = true
  all p (x ∷ xs) = p x && all p xs

  abbrev pub any : (A → Bool) → List A → Bool
  any p [] = false
  any p (x ∷ xs) = p x || any p xs

  abbrev pub replicate : ℕ → A → List A
  replicate zero a = []
  replicate (suc n) a = a ∷ replicate n a

  -- `Vec::push`
  abbrev pub push : List A → A → List A
  push xs x = xs ++ x ∷ []

  -- `Vec::pop`: the last element and what stands before it
  abbrev pub pop : List A → Option (List A)
  pop [] = none
  pop (x ∷ []) = some []
  pop (x ∷ y ∷ ys) = elim (pop (y ∷ ys)) [ none ↦ none | some zs ↦ some (x ∷ zs) ]

module _ {ℓ} {A : Type ℓ} where
  pub length-append : (xs ys : List A) → length (xs ++ ys) ≡ length xs + length ys
  length-append [] ys = omega arith
  length-append (x ∷ xs) ys = omega (arith, length-append xs ys)

  pub all-append : (p : A → Bool) (xs ys : List A) → all p (xs ++ ys) ≡ (all p xs && all p ys)
  all-append p [] ys = refl
  all-append p (x ∷ xs) ys = ground (arith, all-append p xs ys)

  pub any-append : (p : A → Bool) (xs ys : List A) → any p (xs ++ ys) ≡ (any p xs || any p ys)
  any-append p [] ys = refl
  any-append p (x ∷ xs) ys = ground (arith, any-append p xs ys)

  pub pop-push : (xs : List A) (x : A) → pop (push xs x) ≡ some xs
  pop-push [] x = refl
  pop-push (y ∷ []) x = refl
  pop-push (y ∷ z ∷ zs) x = rw (pop-push (z ∷ zs) x)

  pub pop_sound : (xs ys : List A) → pop xs ≡ some ys → (x : A) × (xs ≡ push ys x)
  pop_sound [] ys h = cc
  pop_sound (x ∷ []) ys h = (x, ground arith)
  pop_sound (x ∷ y ∷ xs) ys h = elim (Option-cases (pop (y ∷ xs))) [
    | inl e ↦ cc
    | inr (zs, e) ↦
        let (z, f) = pop_sound (y ∷ xs) zs e in
        let whole : x ∷ zs ≡ ys = ground arith in (z, ap (λ t. x ∷ t) f ∙ ap (λ t. push t z) whole)
  ]

  pub pop_total : (x : A) (xs : List A) → (ys : List A) × (pop (x ∷ xs) ≡ some ys)
  pop_total x [] = ([], refl)
  pop_total x (y ∷ xs) = let (ys, e) = pop_total y xs in (x ∷ ys, rw e refl)
