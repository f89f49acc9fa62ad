-- ===== src/Imports/Resolver/Depth.antt =====
-- A walk succeeds exactly when no segment is empty and no prefix climbs above the root.
use guestjs.Prelude.{
  ℕ, ◌+◌, ◌≤◌, ◌≡◌, refl, sym, ap, ◌∙◌, ◌⊎◌, inl, inr, Bool, true, false, not, ◌&&◌, false≢true,
  subst, List, [], ◌∷◌, arith, push, pop_total, all, length,
}
use guestjs.Text.{Str, codes, str_eq, is_empty}
use guestjs.Errors.{Error, Result, ok, err}
use guestjs.Imports.Resolver.{step, walk}
use guestjs.Imports.Resolver.Walk.{
  is_plain, ups, plains, Stays, Stepped, step-Stepped, segment-cases, step_plain, step_up,
}

abbrev pub no_gap : List Str → Bool
no_gap = all (λ s. not (is_empty s))

ups-cons : (s : Str) (r : List Str) → ups (s ∷ r) ≡ ups (s ∷ []) + ups r
unfolding ups
ups-cons s r = ground arith

plains-cons : (s : Str) (r : List Str) → plains (s ∷ r) ≡ plains (s ∷ []) + plains r
unfolding plains
plains-cons s r = ground arith

Result-cases {ℓ} :
    {A : Type ℓ} (r : Result A) → ((a : A) × (r ≡ ok a)) ⊎ ((e : Error) × (r ≡ err e))
Result-cases (ok a) = inl (a, refl)
Result-cases (err e) = inr (e, refl)

flip : {b : Bool} → b ≡ false → not b ≡ true
flip h = ap not h

and_true : {a b : Bool} → a ≡ true → b ≡ true → (a && b) ≡ true
and_true h k = rw h k

-- What a walk that succeeds has done.
pub record Walked (base segments out : List Str) : Type 0 where
  pub full : no_gap segments ≡ true
  pub stays : Stays (length base) segments
  pub depth : length out + ups segments ≡ length base + plains segments
  pub plain : all is_plain base ≡ true → all is_plain out ≡ true

Stays-nil : (d : ℕ) → Stays d []
unfolding ups
Stays-nil d [] after e = omega arith
Stays-nil d (b ∷ before) after e = cc

Stays-cons :
    (base next : List Str) (s : Str) (rest : List Str)
    → Stepped base s next
    → Stays (length next) rest
    → Stays (length base) (s ∷ rest)
Stays-cons base next s rest h stays [] after e = unfold ups in omega arith
Stays-cons base next s rest h stays (b ∷ before) after e =
    let same : s ≡ b = ground arith in
    let here = stays before after (ground arith) in
    rw (← same) (omega (arith, h.depth, ups-cons s before, plains-cons s before))

Stays-uncons :
    (base next : List Str) (s : Str) (rest : List Str)
    → Stepped base s next
    → Stays (length base) (s ∷ rest)
    → Stays (length next) rest
Stays-uncons base next s rest h stays before after e = omega (
  arith,
  stays (s ∷ before) after (ap (λ r. s ∷ r) e),
  h.depth,
  ups-cons s before,
  plains-cons s before,
)

pub walk_sound :
    (specifier : Str) (base segments : List Str) {out : List Str}
    → walk specifier base segments ≡ ok out
    → Walked base segments out
unfolding walk
walk_sound specifier base [] {out} h =
    let same : base ≡ out = ground arith in
    record {
      full = refl;
      stays = Stays-nil (length base);
      depth = unfold ups plains in ap (λ xs. length xs + 0) (sym same);
      plain = λ a. rw (← same) a;
    }
walk_sound specifier base (s ∷ rest) {out} h = elim (Result-cases (step specifier base s)) [
  | inl (next, e) ↦
      let stepped = step-Stepped specifier base s e in
      let onward : walk specifier next rest ≡ ok out = ground arith in
      let after = walk_sound specifier next rest onward in
      record {
        full = and_true (flip stepped.full) after.full;
        stays = Stays-cons base next s rest stepped after.stays;
        depth = omega (arith, stepped.depth, after.depth, ups-cons s rest, plains-cons s rest);
        plain = λ a. after.plain (stepped.plain a);
      }
  | inr (x, e) ↦ absurd (ground arith)
]

abbrev Steps : Str → List Str → Str → Type 0
Steps specifier base s = (next : List Str) × (step specifier base s ≡ ok next)

step_climbs :
    (specifier : Str) (base : List Str)
    → ups (codes ".." ∷ []) ≤ length base + plains (codes ".." ∷ [])
    → Steps specifier base (codes "..")
unfolding ups plains str_eq
step_climbs specifier [] h = absurd (omega arith)
step_climbs specifier (x ∷ xs) h =
    let (ys, e) = pop_total x xs in (ys, step_up specifier (x ∷ xs) ys e)

step_stays : (specifier : Str) (base : List Str) → Steps specifier base (codes ".")
unfolding step
step_stays specifier base = (base, refl)

step_complete :
    (specifier : Str) (base : List Str) (s : Str)
    → is_empty s ≡ false
    → ups (s ∷ []) ≤ length base + plains (s ∷ [])
    → Steps specifier base s
step_complete specifier base s full enough = elim (segment-cases s) [
  | inl e ↦ subst (Steps specifier base) (sym e) (step_stays specifier base)
  | inr (inl e) ↦ subst (Steps specifier base) (sym e) (
      step_climbs specifier base
        (subst (λ t. ups (t ∷ []) ≤ length base + plains (t ∷ [])) e enough))
  | inr (inr (inl e)) ↦ absurd (false≢true (sym full ∙ ap is_empty e))
  | inr (inr (inr p)) ↦ (push base s, step_plain specifier base s p)
]

walk-cons :
    (specifier : Str) (base next rest out : List Str) (s : Str)
    → step specifier base s ≡ ok next
    → walk specifier next rest ≡ ok out
    → walk specifier base (s ∷ rest) ≡ ok out
unfolding walk
walk-cons specifier base next rest out s e f = ground arith

-- Without empty segments, a walk that stays in its tree succeeds.
pub walk_complete :
    (specifier : Str) (base segments : List Str)
    → no_gap segments ≡ true
    → Stays (length base) segments
    → (out : List Str) × (walk specifier base segments ≡ ok out)
unfolding walk
walk_complete specifier base [] full stays = (base, refl)
walk_complete specifier base (s ∷ rest) full stays =
    let (next, e) = step_complete specifier base s (ground arith) (stays (s ∷ []) rest refl) in
    let (out, f) =
      walk_complete specifier next rest (ground arith)
        (Stays-uncons base next s rest (step-Stepped specifier base s e) stays) in
    (out, walk-cons specifier base next rest out s e f)
