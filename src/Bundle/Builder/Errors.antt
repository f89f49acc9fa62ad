-- ===== src/Bundle/Builder/Errors.antt =====
-- The first error of a builder is the one that `build` reports, and nothing is added behind it.
use guestjs.Prelude.{ℕ, ◌≡◌, refl, none, some, List, [], ◌∷◌, ◌++◌, arith}
use guestjs.Text.{Str}
use guestjs.Errors.{Error, Result, err}
use guestjs.Bundle.{BundleBuilder}
use guestjs.Bundle.Builder.{Step, Op, attempt, operation, add, add_all, build}

module _ (transpile : Str → Str → Result Str) where
  add_after_error :
      (op : Op) (b : BundleBuilder) {e : Error} → b.error ≡ some e → add transpile op b ≡ b
  unfolding add
  add_after_error op b h = rw h refl

  pub add_all_after_error :
      (ops : List Op) (b : BundleBuilder) {e : Error}
      → b.error ≡ some e
      → add_all transpile ops b ≡ b
  unfolding add_all
  add_all_after_error [] b h = refl
  add_all_after_error (op ∷ ops) b h = rw (add_after_error op b h) (add_all_after_error ops b h)

  pub add_all-append :
      (xs ys : List Op) (b : BundleBuilder)
      → add_all transpile (xs ++ ys) b ≡ add_all transpile ys (add_all transpile xs b)
  unfolding add_all
  add_all-append [] ys b = refl
  add_all-append (op ∷ xs) ys b = add_all-append xs ys (add transpile op b)

  attempt-error :
      (s : Step) (b : BundleBuilder) {e : Error}
      → b.error ≡ none
      → (s b).1 ≡ err e
      → (attempt s b).error ≡ some e
  unfolding attempt
  attempt-error s b h k = ground arith

  -- If the calls before `op` have left no error and `op` fails, then `build` reports the error of
  -- `op`, whatever calls come after it, and takes no bundle id.
  pub first_error_kept :
      (before : List Op) (op : Op) (after : List Op) (b : BundleBuilder) (counter : ℕ) {e : Error}
      → (add_all transpile before b).error ≡ none
      → (operation transpile op (add_all transpile before b)).1 ≡ err e
      → build counter (add_all transpile (before ++ (op ∷ after)) b) ≡ some (err e, counter)
  unfolding build add_all
  first_error_kept before op after b counter {e} clean fails =
      rw
        (
          add_all-append before (op ∷ after) b,
          add_all_after_error after (add transpile op (add_all transpile before b)) failed,
          failed,
        )
        refl
    where
      failed : (add transpile op (add_all transpile before b)).error ≡ some e
      failed =
          unfold add in
          attempt-error (operation transpile op) (add_all transpile before b) clean fails
