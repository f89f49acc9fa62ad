-- ===== src/Imports/Resolver/Walk.antt =====
-- Which relative specifiers can be walked, and where the walk ends.
use guestjs.Prelude.{
  ℕ, suc, ◌+◌, ◌≤◌, ◌≡◌, ◌≢◌, refl, sym, ap, ◌∙◌, ◌⊎◌, inl, inr, Bool, true, false, not, ◌||◌, some,
  List, [], ◌∷◌, ◌++◌, arith, push, pop, pop_sound, all, all-append, length, length-append,
  Bool-cases, if◌then◌else◌,
}
use guestjs.Text.{Str, codes, str_eq, is_empty}
use guestjs.Text.Order.{eq_of_str_eq}
use guestjs.Errors.{ok}
use guestjs.Imports.Resolver.{step}

-- a segment that names something: not "", "." or ".."
abbrev pub is_plain : Str → Bool
is_plain s = not (is_empty s || (str_eq s (codes ".") || str_eq s (codes "..")))

-- how often a list of segments climbs, and how often it descends
unfoldable pub ups : List Str → ℕ
ups [] = 0
ups (s ∷ rest) = if str_eq s (codes "..") then suc (ups rest) else ups rest

unfoldable pub plains : List Str → ℕ
plains [] = 0
plains (s ∷ rest) = if is_plain s then suc (plains rest) else plains rest

-- Every prefix of the walk stays at or below the root of the tree.
abbrev pub Stays : ℕ → List Str → Type 0
Stays depth segments =
    (before after : List Str) → segments ≡ before ++ after → ups before ≤ depth + plains before

abbrev pub has_gap : List Str → Bool
has_gap segments = not (all (λ s. not (is_empty s)) segments)

pub segment-cases : (s : Str) → (s ≡ codes ".") ⊎ (s ≡ codes "..") ⊎ (s ≡ []) ⊎ (is_plain s ≡ true)
segment-cases s = elim (Bool-cases (str_eq s (codes "."))) [
  | inl e ↦ inl (eq_of_str_eq s (codes ".") e)
  | inr n ↦ elim (Bool-cases (str_eq s (codes ".."))) [
    | inl e ↦ inr (inl (eq_of_str_eq s (codes "..") e))
    | inr m ↦ inr (inr (last s n m))
  ]
]
  where
    last :
        (s : Str)
        → str_eq s (codes ".") ≡ false
        → str_eq s (codes "..") ≡ false
        → (s ≡ []) ⊎ (is_plain s ≡ true)
    last [] n m = inl refl
    last (x ∷ t) n m = inr (rw (n, m) refl)

pub length-push : (xs : List Str) (x : Str) → length (push xs x) ≡ suc (length xs)
length-push xs x = omega (arith, length-append xs (x ∷ []))

pub length-pop : (xs ys : List Str) → pop xs ≡ some ys → length xs ≡ suc (length ys)
length-pop xs ys h = let (x, e) = pop_sound xs ys h in ap length e ∙ length-push ys x

pub all-pop :
    (p : Str → Bool) (xs ys : List Str) → pop xs ≡ some ys → all p xs ≡ true → all p ys ≡ true
all-pop p xs ys h a =
    let (x, e) = pop_sound xs ys h in ground (arith, all-append p ys (x ∷ []), ap (all p) e)

pub step_plain :
    (specifier : Str) (base : List Str) (s : Str)
    → is_plain s ≡ true
    → step specifier base s ≡ ok (push base s)
unfolding step
step_plain specifier base s h = ground arith

pub step_up :
    (specifier : Str) (base out : List Str)
    → pop base ≡ some out
    → step specifier base (codes "..") ≡ ok out
unfolding step
step_up specifier base out h = rw h refl

gap_fails : (specifier : Str) (base : List Str) {out : List Str} → step specifier base [] ≢ ok out
unfolding step
gap_fails specifier base h = cc

-- One step that succeeds: what it does to the depth and to the segments.
pub record Stepped (base : List Str) (s : Str) (out : List Str) : Type 0 where
  pub full : is_empty s ≡ false
  pub depth : length out + ups (s ∷ []) ≡ length base + plains (s ∷ [])
  pub plain : all is_plain base ≡ true → all is_plain out ≡ true

Stepped-here :
    (specifier : Str) (base : List Str) {out : List Str}
    → step specifier base (codes ".") ≡ ok out
    → Stepped base (codes ".") out
unfolding step ups plains
Stepped-here specifier base {out} h =
    let same : base ≡ out = ground arith in
    record { full = refl; depth = ap (λ xs. length xs + 0) (sym same); plain = λ a. rw (← same) a }

Stepped-up :
    (specifier : Str) (base : List Str) {out : List Str}
    → step specifier base (codes "..") ≡ ok out
    → Stepped base (codes "..") out
unfolding step ups plains
Stepped-up specifier base {out} h =
    let popped : pop base ≡ some out = ground arith in
    record {
      full = refl;
      depth = omega (arith, length-pop base out popped);
      plain = all-pop is_plain base out popped;
    }

Stepped-down :
    (specifier : Str) (base : List Str) (s : Str) {out : List Str}
    → is_plain s ≡ true
    → step specifier base s ≡ ok out
    → Stepped base s out
unfolding ups plains
Stepped-down specifier base s {out} p h =
    let pushed : ok (push base s) ≡ ok out = sym (step_plain specifier base s p) ∙ h in
    let same : push base s ≡ out = ground arith in
    record {
      full = ground arith;
      depth = rw (← same) (ground (arith, length-push base s));
      plain = λ a. rw (← same) (ground (arith, all-append is_plain base (s ∷ [])));
    }

pub step-Stepped :
    (specifier : Str) (base : List Str) (s : Str) {out : List Str}
    → step specifier base s ≡ ok out
    → Stepped base s out
step-Stepped specifier base s {out} h = elim (segment-cases s) [
  | inl e ↦ rw e (Stepped-here specifier base (rw e at h))
  | inr (inl e) ↦ rw e (Stepped-up specifier base (rw e at h))
  | inr (inr (inl e)) ↦ absurd (gap_fails specifier base (rw e at h))
  | inr (inr (inr p)) ↦ Stepped-down specifier base s p h
]
