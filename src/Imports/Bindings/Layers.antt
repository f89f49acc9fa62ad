-- ===== src/Imports/Bindings/Layers.antt =====
-- What one layer of modules shows at the roots of a bundle that may be mounted over it.
use guestjs.Prelude.{
  ◌≡◌, refl, ap, ◌∙◌, ◌⊎◌, inl, inr, true, false, Option, none, some, arith, Bool-cases,
  if◌then◌else◌,
}
use guestjs.Text.{Str}
use guestjs.Errors.{ok}
use guestjs.Dict.{get, elem, contains_key}
use guestjs.Bundle.{Bundle, roots, contains}
use guestjs.Bundle.Name.{root}
use guestjs.Catalog.Sources.{
  Sources, ModuleSource, bundle, canonical, find, alias, or_else, check_bundle,
}
use guestjs.Catalog.Sources.Claims.{check_bundle_sound, with_bundle}
use guestjs.Catalog.Sources.Validity.{IsValid, bound}
use guestjs.Catalog.Sources.Growth.{IsShared, Same, get-extend_ne, get-extend-elem}

-- what a layer that holds `b` at the root of `n` finds for `n`
abbrev pub held_source : Bundle → Str → Option ModuleSource
held_source b n = if contains b n then some (bundle b) else none

abbrev pub held_name : Bundle → Str → Option Str
held_name b n = if contains b n then some n else none

module _ (s : Sources) (b : Bundle) (n : Str) (free : bound s n ≡ false) where
  find_held : get (root n) s.bundles ≡ some b → find s n ≡ held_source b n
  unfolding find contains_key
  find_held h = ground arith

  find_empty : get (root n) s.bundles ≡ none → find s n ≡ none
  unfolding find contains_key
  find_empty h = ground arith

  canonical_held : get (root n) s.bundles ≡ some b → canonical s n ≡ held_name b n
  unfolding canonical contains_key alias
  canonical_held h = ground arith

  canonical_empty : get (root n) s.bundles ≡ none → canonical s n ≡ none
  unfolding canonical contains_key alias
  canonical_empty h = ground arith

-- A layer that `b` can be mounted over has nothing of its own at the roots of `b`.
pub record Yields (s : Sources) (b : Bundle) : Type 0 where
  pub unbound : (n : Str) → elem (root n) (roots b) ≡ true → bound s n ≡ false
  pub bundles :
      (r : Str) → elem r (roots b) ≡ true → (get r s.bundles ≡ none) ⊎ (get r s.bundles ≡ some b)

pub check_bundle-Yields :
    (s : Sources) (b : Bundle) → IsValid s → IsShared s b → check_bundle s b ≡ ok tt → Yields s b
unfolding contains_key
check_bundle-Yields s b v shared h = record {
  unbound = λ n m. elim (Bool-cases (bound s n)) [
    | inr free ↦ free
    | inl taken ↦ elim (check_bundle_sound s b (root n) h m) [
      | inl (c, held, _) ↦ ground (arith, v.unowned n taken)
      | inr (_, apart) ↦ absurd (apart n taken refl)
    ]
  ];
  bundles = λ r m. elim (check_bundle_sound s b r h m) [
    | inl (c, held, same) ↦ inr (held ∙ ap some (shared r c held same))
    | inr (empty, _) ↦ inl empty
  ];
}

module _ (s : Sources) (b : Bundle) (y : Yields s b) (n : Str)
    (m : elem (root n) (roots b) ≡ true) where
  pub find_at_root : (find s n ≡ none) ⊎ (find s n ≡ held_source b n)
  find_at_root = elim (y.bundles (root n) m) [
    | inl e ↦ inl (find_empty s b n (y.unbound n m) e)
    | inr e ↦ inr (find_held s b n (y.unbound n m) e)
  ]

  pub canonical_at_root : (canonical s n ≡ none) ⊎ (canonical s n ≡ held_name b n)
  canonical_at_root = elim (y.bundles (root n) m) [
    | inl e ↦ inl (canonical_empty s b n (y.unbound n m) e)
    | inr e ↦ inr (canonical_held s b n (y.unbound n m) e)
  ]

  -- where the layer has any name below the root, it has all of the bundle's
  pub canonical_beside :
      (k : Str) → root k ≡ root n → (canonical s k ≡ none) ⊎ (canonical s n ≡ held_name b n)
  canonical_beside k same = elim (y.bundles (root n) m) [
    | inl e ↦ inl (canonical_empty s b k (y.unbound k (rw same m)) (rw same e))
    | inr e ↦ inr (canonical_held s b n (y.unbound n m) e)
  ]

-- After the mount the bundle is what the mounted layer holds there.
module _ (s : Sources) (b : Bundle) (y : Yields s b) (n : Str) where
  pub find_mounted : elem (root n) (roots b) ≡ true → find (with_bundle b s) n ≡ held_source b n
  find_mounted m =
      find_held (with_bundle b s) b n (y.unbound n m)
        (get-extend-elem (root n) b (roots b) s.bundles m)

  pub canonical_mounted :
      elem (root n) (roots b) ≡ true → canonical (with_bundle b s) n ≡ held_name b n
  canonical_mounted m =
      canonical_held (with_bundle b s) b n (y.unbound n m)
        (get-extend-elem (root n) b (roots b) s.bundles m)

  pub Same-elsewhere : elem (root n) (roots b) ≡ false → Same s (with_bundle b s) n
  Same-elsewhere old = (refl, refl, get-extend_ne (root n) b (roots b) s.bundles old)

pub first_found {ℓ} :
    {A : Type ℓ} (h p q r : Option A) {x : A}
    → (p ≡ none) ⊎ (p ≡ h)
    → (q ≡ none) ⊎ (q ≡ h)
    → (r ≡ none) ⊎ (r ≡ h)
    → or_else p (or_else q r) ≡ some x
    → h ≡ some x
first_found h p q r a b c e = ground arith
