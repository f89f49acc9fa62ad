-- ===== src/Marshal/Collections/RoundTrip.antt =====
-- A list given to a guest as an array (crates/guestjs-core/src/marshal/collections.rs) and taken back.
use guestjs.Prelude.{ℕ, suc, ◌≡◌, refl, ap, ◌∙◌, List, [], ◌∷◌, arith, subst, ◌≤◌, length}
use guestjs.Errors.{Result, ok, err}
use guestjs.Text.{Str}
use guestjs.Marshal.Integers.{ℤ, max_safe_integer}
use guestjs.Marshal.Collections.{
  and_then, Arrays, Conversion, of_length, to_each, from_each, vec_to, vec_from, array_from,
}
use guestjs.Marshal.Collections.Reads.{Keeps, read_elements-Holds}

-- Where a function that succeeded came from.
and_then-ok :
    {S A B : Type 0} (rest : A → S → Result B × S) (first : Result A × S) (b : B) (t : S)
    → and_then rest first ≡ (ok b, t)
    → (a : A) × (s : S) × (first ≡ (ok a, s)) × (rest a s ≡ (ok b, t))
and_then-ok rest (ok a, s) b t h = (a, s, refl, h)
and_then-ok rest (err e, s) b t h = absurd (ground arith)

-- Each value means the element at its place.
data AllMean {S V T : Type 0} (Means : S → V → T → Type 0) (s : S) : List V → List T → Type 0 where
  no_more : AllMean Means s [] []
  one_more :
      {v : V} {x : T} {vs : List V} {xs : List T}
      → Means s v x
      → AllMean Means s vs xs
      → AllMean Means s (v ∷ vs) (x ∷ xs)

module _ {S V T : Type 0} (arrays : Arrays S V) (inner : Conversion S V T)
    (Extends : S → S → Type 0) (Holds : S → V → List V → Type 0) (Means : S → V → T → Type 0)
    (IsText : S → V → Str → Type 0) (IsNumber : S → V → ℤ → Type 0)
    (keeps : Keeps arrays inner Extends Holds Means IsText IsNumber) where
  still_AllMean :
      (s t : S) (vs : List V) (xs : List T)
      → Extends s t
      → AllMean Means s vs xs
      → AllMean Means t vs xs
  still_AllMean s t _ _ e no_more = no_more
  still_AllMean s t _ _ e (one_more {v = v} {x = x} {vs = vs} {xs = xs} m ms) =
      one_more (keeps.still_means s t v x e m) (still_AllMean s t vs xs e ms)

  to_each-AllMean :
      (xs : List T) (s t : S) (vs : List V)
      → to_each arrays inner xs s ≡ (ok vs, t)
      → Extends s t × AllMean Means t vs xs
  unfolding to_each
  to_each-AllMean [] s t vs h =
      let none : [] ≡ vs = ground arith in
      (
        subst (λ u. Extends s u) (ap (λ r. r.1) h) (keeps.same s),
        subst (λ w. AllMean Means t w []) none no_more,
      )
  to_each-AllMean (x ∷ xs) s t vs h =
      let (v, r, first, h_rest) = and_then-ok _ (inner.to x s) vs t h in
      let (ws, u, others, last) = and_then-ok _ (to_each arrays inner xs r) vs t h_rest in
      let (e, m) = keeps.given x s r v first in
      let (f, ms) = to_each-AllMean xs r u ws others in
      let done : v ∷ ws ≡ vs = ground (arith, last) in
      let there : u ≡ t = ap (λ q. q.1) last in
      subst (λ q. Extends s q × AllMean Means q vs (x ∷ xs)) there
        (
          keeps.further s r u e f,
          subst (λ q. AllMean Means u q (x ∷ xs)) done
              (one_more (keeps.still_means r u v x f m) ms),
        )

  from_each-AllMean :
      (s : S) (vs : List V) (xs : List T)
      → AllMean Means s vs xs
      → from_each arrays inner vs s ≡ (ok xs, s)
  unfolding from_each
  from_each-AllMean s _ _ no_more = refl
  from_each-AllMean s _ _ (one_more {v = v} {x = x} {vs = vs} {xs = xs} m ms) =
      ap (and_then (λ y t. and_then (λ ys u. (ok (y ∷ ys), u)) (from_each arrays inner vs t)))
        (keeps.taken x s v m)
      ∙ ap (and_then (λ ys u. (ok (x ∷ ys), u))) (from_each-AllMean s vs xs ms)

  AllMean-length :
      (s : S) (vs : List V) (xs : List T) → AllMean Means s vs xs → length vs ≡ length xs
  AllMean-length s _ _ no_more = refl
  AllMean-length s _ _ (one_more {vs = vs} {xs = xs} m ms) = ap suc (AllMean-length s vs xs ms)

  -- A list that a guest was given as an array comes back as itself, element by element and in
  -- order, at any time later; as an array of fixed length too, if that is its length, and else with
  -- the error of another length. The engine keeps its arrays as documented, the conversion takes
  -- back each element that it has given, and the list has at most 2^53 - 1 elements.
  pub vec_from-vec_to :
      (xs : List T) (s t later : S) (v : V)
      → length xs ≤ max_safe_integer
      → vec_to arrays inner xs s ≡ (ok v, t)
      → Extends t later
      → (u : S) × Extends later u
        × (vec_from arrays inner v later ≡ (ok xs, u))
        × ((n : ℕ) → array_from arrays inner n v later ≡ of_length arrays n xs u)
  unfolding vec_to vec_from array_from
  vec_from-vec_to xs s t later v short h since =
      let (vs, r, each, made) = and_then-ok _ (to_each arrays inner xs s) v t h in
      let (e, means) = to_each-AllMean xs s r vs each in
      let (f, holds) = keeps.made vs r t v made in
      let few : length vs ≤ max_safe_integer = omega (arith, AllMean-length r vs xs means, short) in
      let (u, g, all_read) =
        read_elements-Holds arrays inner Extends Holds Means IsText IsNumber keeps vs later v
          (keeps.still_holds t later v vs since holds) few in
      let grown = keeps.further r t u f (keeps.further t later u since g) in
      let back : vec_from arrays inner v later ≡ (ok xs, u) =
        ap (and_then (λ ws. from_each arrays inner ws)) all_read
        ∙ from_each-AllMean u vs xs (still_AllMean r u vs xs grown means) in
      (u, g, back, λ n. ap (and_then (λ ys. of_length arrays n ys)) back)
