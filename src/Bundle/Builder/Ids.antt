-- ===== src/Bundle/Builder/Ids.antt =====
-- Every bundle has its own id.
use guestjs.Prelude.{
  ℕ, ◌+◌, ◌<◌, ◌^◌, length, ◌≡◌, refl, subst, Bool, true, false, Option, none, some, List, [], ◌∷◌,
  arith,
}
use guestjs.Text.{is_empty}
use guestjs.Errors.{Error, Result, ok, err}
use guestjs.Bundle.{Bundle, BundleBuilder}
use guestjs.Bundle.Builder.{finish, build}
use guestjs.Bundle.Builder.Build.{build_all, Ascending}

-- the id that a build takes and the counter that it leaves
abbrev Counted : ℕ → Result Bundle → ℕ → Type 0
Counted counter (ok b) left = (b.id ≡ counter) × (left ≡ counter + 1)
Counted counter (err _) left = left ≡ counter

finish_total :
    (o : Option Error) (e : Bool) (counter : ℕ) (c : BundleBuilder)
    → 0 < counter
    → counter + 1 < 2 ^ 64
    → (r : Result Bundle) × (left : ℕ) × (finish o e counter c ≡ some (r, left))
      × Counted counter r left
unfolding finish
finish_total (some x) e counter c h k = (err x, counter, refl, refl)
finish_total none true counter c h k = (_, counter, refl, refl)
finish_total none false counter c h k = (
  ok (record { id = counter; modules = c.modules; files = c.files }),
  counter + 1,
  ground arith,
  (refl, refl),
)

build_total :
    (counter : ℕ) (c : BundleBuilder)
    → 0 < counter
    → counter + 1 < 2 ^ 64
    → (r : Result Bundle) × (left : ℕ) × (build counter c ≡ some (r, left)) × Counted counter r left
unfolding build
build_total counter c = finish_total c.error (is_empty c.modules) counter c

build_all-cons :
    (counter left n : ℕ) (c : BundleBuilder) (cs : List BundleBuilder) (r : Result Bundle)
    (rs : List (Result Bundle))
    → build counter c ≡ some (r, left)
    → build_all left cs ≡ some (rs, n)
    → build_all counter (c ∷ cs) ≡ some (r ∷ rs, n)
unfolding build_all
build_all-cons counter left n c cs r rs e f = ground arith

-- From a counter that is at least 1 and cannot wrap within the builds to come, no build panics and
-- each bundle has an id that is more than those of all bundles built before it.
pub build_all-Ascending :
    (cs : List BundleBuilder) (counter : ℕ)
    → 0 < counter
    → counter + length cs < 2 ^ 64
    → (rs : List (Result Bundle)) × (left : ℕ) × (build_all counter cs ≡ some (rs, left))
      × Ascending counter rs
unfolding build_all
build_all-Ascending [] counter h k = ([], counter, refl, tt)
build_all-Ascending (c ∷ cs) counter h k =
    let (r, left, e, counted) = build_total counter c h (omega arith) in
    go r left e counted
      (λ (h' : 0 < left) (k' : left + length cs < 2 ^ 64). build_all-Ascending cs left h' k')
  where
    go :
        (r : Result Bundle) (left : ℕ)
        → build counter c ≡ some (r, left)
        → Counted counter r left
        → (0 < left
            → left + length cs < 2 ^ 64
            → (rs : List (Result Bundle)) × (n : ℕ) × (build_all left cs ≡ some (rs, n))
              × Ascending left rs)
        → (rs : List (Result Bundle)) × (n : ℕ) × (build_all counter (c ∷ cs) ≡ some (rs, n))
          × Ascending counter rs
    go (ok b) left e (same, next) rest =
        let (rs, n, f, a) = rest (omega arith) (omega arith) in
        (
          ok b ∷ rs,
          n,
          build_all-cons counter left n c cs (ok b) rs e f,
          (omega arith, subst (λ k. Ascending k rs) (omega arith) a),
        )
    go (err x) left e next rest =
        let (rs, n, f, a) = rest (omega arith) (omega arith) in
        (
          err x ∷ rs,
          n,
          build_all-cons counter left n c cs (err x) rs e f,
          subst (λ k. Ascending k rs) next a,
        )
