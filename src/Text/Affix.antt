-- ===== src/Text/Affix.antt =====
-- Prefixes, suffixes and single characters of strings.
use guestjs.Prelude.{
  ℕ, ◌≡◌, refl, ap, sym, ◌≢◌, ◌⊎◌, inl, inr, ◌||◌, none, some, [], ◌∷◌, ◌++◌, arith, Option-cases,
  length, length-append,
}
use guestjs.Text.{Str, strip_prefix, strip_suffix, ends_with, contains}
use guestjs.Text.Order.{str_eq_ne, str_eq_refl, str_eq_iff}

pub strip_prefix-append : (p s : Str) → strip_prefix p (p ++ s) ≡ some s
unfolding strip_prefix
strip_prefix-append [] s = refl
strip_prefix-append (x ∷ p) s = ground (arith, strip_prefix-append p s)

pub append_of_strip_prefix : (p s r : Str) → strip_prefix p s ≡ some r → s ≡ p ++ r
unfolding strip_prefix
append_of_strip_prefix [] s r h = ground arith
append_of_strip_prefix (x ∷ p) [] r h = cc
append_of_strip_prefix (x ∷ p) (y ∷ s) r h = ground (arith, append_of_strip_prefix p s r)

longer_ne : (x : ℕ) (s p : Str) → (x ∷ (s ++ p)) ≢ p
longer_ne x s p e = omega (arith, ap length e, length-append s p)

pub strip_suffix-append : (p s : Str) → strip_suffix p (s ++ p) ≡ some s
unfolding strip_suffix
strip_suffix-append [] [] = refl
strip_suffix-append (x ∷ p) [] = ground (arith, str_eq_refl (x ∷ p))
strip_suffix-append p (x ∷ s) =
    ground (arith, str_eq_ne (x ∷ (s ++ p)) p (longer_ne x s p), strip_suffix-append p s)

pub append_of_strip_suffix : (p s r : Str) → strip_suffix p s ≡ some r → s ≡ r ++ p
unfolding strip_suffix
append_of_strip_suffix p [] r h = ground (arith, str_eq_iff [] p)
append_of_strip_suffix p (x ∷ s) r h = elim (Option-cases (strip_suffix p s)) [
  | inl e ↦ ground (arith, str_eq_iff (x ∷ s) p)
  | inr (q, e) ↦ ground (arith, str_eq_iff (x ∷ s) p, append_of_strip_suffix p s q e)
]

pub contains-append : (c : ℕ) (s t : Str) → contains c (s ++ t) ≡ (contains c s || contains c t)
unfolding contains
contains-append c [] t = refl
contains-append c (x ∷ s) t = ground (arith, contains-append c s t)

pub ends_with-append : (c x : ℕ) (s t : Str) → ends_with c (s ++ (x ∷ t)) ≡ ends_with c (x ∷ t)
unfolding ends_with
ends_with-append c x [] t = refl
ends_with-append c x (y ∷ []) t = refl
ends_with-append c x (y ∷ z ∷ s) t = ends_with-append c x (z ∷ s) t

-- Two cuts of one text are one inside the other.
append_eq-append :
    (r p s q : Str) → r ++ p ≡ s ++ q → ((t : Str) × (q ≡ t ++ p)) ⊎ ((t : Str) × (p ≡ t ++ q))
append_eq-append [] p s q e = inr (s, e)
append_eq-append (x ∷ r) p [] q e = inl (x ∷ r, sym e)
append_eq-append (x ∷ r) p (y ∷ s) q e = append_eq-append r p s q (ground arith)

-- Of two texts that are no suffixes of each other, one is no suffix of a text that ends in the
-- other.
pub strip_suffix-other :
    (p s q : Str)
    → strip_suffix p q ≡ none
    → strip_suffix q p ≡ none
    → strip_suffix p (s ++ q) ≡ none
strip_suffix-other p s q h k = elim (Option-cases (strip_suffix p (s ++ q))) [
  | inl e ↦ e
  | inr (r, e) ↦ elim (append_eq-append r p s q (sym (append_of_strip_suffix p (s ++ q) r e))) [
    | inl (t, f) ↦ cc (strip_suffix-append p t, f, h)
    | inr (t, f) ↦ cc (strip_suffix-append q t, f, k)
  ]
]
