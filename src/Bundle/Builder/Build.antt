-- ===== src/Bundle/Builder/Build.antt =====
-- What `build` returns, and the ids that it hands out.
use guestjs.Prelude.{
  ℕ, ◌+◌, ◌<◌, ◌≤◌, ◌%◌, ◌^◌, ◌≡◌, refl, Bool, true, false, Option, none, some, List, [], ◌∷◌,
  arith,
}
use guestjs.Text.{is_empty}
use guestjs.Errors.{Error, Result, ok, err}
use guestjs.Bundle.{Bundle, BundleBuilder}
use guestjs.Bundle.Builder.{finish, build}

-- How a successful build comes about.
pub record Built (counter : ℕ) (c : BundleBuilder) (b : Bundle) (left : ℕ) : Type 0 where
  pub clean : c.error ≡ none
  pub filled : is_empty c.modules ≡ false
  pub bundle : b ≡ record { id = counter; modules = c.modules; files = c.files }
  pub nonzero : 0 < counter
  pub counted : left ≡ (counter + 1) % 2 ^ 64

finish-Built :
    (o : Option Error) (e : Bool) (counter : ℕ) (c : BundleBuilder) {b : Bundle} {left : ℕ}
    → c.error ≡ o
    → is_empty c.modules ≡ e
    → finish o e counter c ≡ some (ok b, left)
    → Built counter c b left
unfolding finish
finish-Built (some x) e counter c p q h = cc
finish-Built none true counter c p q h = cc
finish-Built none false counter c p q h = record {
  clean = p;
  filled = q;
  bundle = ground arith;
  nonzero = ground arith;
  counted = ground arith;
}

-- `build` succeeds exactly on a builder with no error and some module, and moves the counter on.
pub build_sound :
    (counter : ℕ) (c : BundleBuilder) {b : Bundle} {left : ℕ}
    → build counter c ≡ some (ok b, left)
    → Built counter c b left
unfolding build
build_sound counter c h = finish-Built c.error (is_empty c.modules) counter c refl refl h

-- The results of building one builder after another, or `none` at a panic of the counter.
unfoldable pub build_all : ℕ → List BundleBuilder → Option (List (Result Bundle) × ℕ)
build_all counter [] = some ([], counter)
build_all counter (c ∷ cs) = elim (build counter c) [
  | none ↦ none
  | some (r, left) ↦ elim (build_all left cs) [ none ↦ none | some (rs, n) ↦ some (r ∷ rs, n) ]
]

-- the ids are `n` or more, and each is more than those before it
abbrev pub Ascending : ℕ → List (Result Bundle) → Type 0
Ascending n [] = Unit
Ascending n (ok b ∷ rs) = (n ≤ b.id) × Ascending (b.id + 1) rs
Ascending n (err _ ∷ rs) = Ascending n rs
