-- ===== src/Imports/Bindings/Mounting.antt =====
-- Mounting a bundle never changes what a name means that the guest can already import.
use guestjs.Prelude.{
  ◌≡◌, refl, sym, ap, ◌∙◌, ◌⊎◌, inl, inr, true, false, Option, none, some, arith, Bool-cases, subst,
}
use guestjs.Text.{Str, codes}
use guestjs.Errors.{ok, >>=-eq-ok}
use guestjs.Dict.{elem}
use guestjs.Bundle.{Bundle, roots, contains}
use guestjs.Bundle.Name.{root}
use guestjs.Bundle.Roots.{roots_complete}
use guestjs.Bundle.Name.Laws.{
  is_within-root, root-no_slash, is_within_trans, is_within-append, within_root,
}
use guestjs.Catalog.Sources.{
  Sources, ModuleSource, bundle, canonical, find, or_else, check_bundle, insert_bundle,
}
use guestjs.Catalog.Sources.Claims.{with_bundle, insert_bundle_sound}
use guestjs.Catalog.Sources.Validity.{insert_bundle-IsValid}
use guestjs.Catalog.Sources.Growth.{IsShared, find-Same, canonical-Same}
use guestjs.Imports.Bindings.{
  GuestBindings, first, source, is_denied, name_of, index_of, candidate, locate, mount,
}
use guestjs.Imports.Bindings.Laws.{IsValidBindings, candidate-cases, locate_iff}
use guestjs.Imports.Bindings.Layers.{
  held_source, held_name, Yields, check_bundle-Yields, find_at_root, canonical_at_root,
  canonical_beside, find_mounted, canonical_mounted, Same-elsewhere, first_found,
}

root-index : (n : Str) → root (index_of n) ≡ root n
root-index n =
    (is_within-root (index_of n) (root n) (root-no_slash n)).0
      (is_within_trans (index_of n) n (root n) (is_within-append n (codes "index")) (within_root n))

-- The facts that a successful mount has checked.
pub record Mounted (g : GuestBindings) (b : Bundle) (h : GuestBindings) : Type 0 where
  pub result : h ≡ record g { mounted = with_bundle b g.mounted }
  pub runtime : Yields g.runtime.sources b
  pub guest : Yields g.guest.sources b
  pub mounted : Yields g.mounted b

-- every bundle of the guest that has the id of `b` is a clone of `b`
pub record IsSharedIn (g : GuestBindings) (b : Bundle) : Type 0 where
  pub runtime : IsShared g.runtime.sources b
  pub guest : IsShared g.guest.sources b
  pub mounted : IsShared g.mounted b

pub mount_sound :
    (g : GuestBindings) (b : Bundle) {h : GuestBindings}
    → IsValidBindings g
    → IsSharedIn g b
    → mount g b ≡ ok h
    → Mounted g b h
unfolding mount
mount_sound g b {h} v shared e =
    let (_, c, rest) = >>=-eq-ok (check_bundle g.runtime.sources b) _ e in
    let (_, d, last) = >>=-eq-ok (check_bundle g.guest.sources b) _ rest in
    let (t, i, made) =
      >>=-eq-ok (insert_bundle b g.mounted) (λ t. ok (record g { mounted = t })) last in
    let (checked, same) = insert_bundle_sound b g.mounted i in
    let made_of : record g { mounted = t } ≡ h = ground arith in
    record {
      result = sym made_of ∙ ap (λ (x : Sources). record g { mounted = x }) same;
      runtime = check_bundle-Yields g.runtime.sources b v.runtime shared.runtime c;
      guest = check_bundle-Yields g.guest.sources b v.guest shared.guest d;
      mounted = check_bundle-Yields g.mounted b v.mounted shared.mounted checked;
    }

module _ (g : GuestBindings) (b : Bundle)
    (m : Mounted g b (record g { mounted = with_bundle b g.mounted })) where
  abbrev after : GuestBindings
  after = record g { mounted = with_bundle b g.mounted }

  -- what the layers show first, before and after the mount, for any reading `f` of a layer at `n`
  kept {ℓ} :
      {A : Type ℓ} (f : Sources → Option A) (held : Option A) (n : Str) {x : A}
      → (elem (root n) (roots b) ≡ false → f (with_bundle b g.mounted) ≡ f g.mounted)
      → (elem (root n) (roots b) ≡ true → f (with_bundle b g.mounted) ≡ held)
      → ((s : Sources) → Yields s b → elem (root n) (roots b) ≡ true → (f s ≡ none) ⊎ (f s ≡ held))
      → first g f ≡ some x
      → first after f ≡ some x
  kept f held n same found at_root h = elim (Bool-cases (elem (root n) (roots b))) [
    | inr old ↦
        ap (λ o. or_else o (or_else (f g.guest.sources) (f g.runtime.sources))) (same old) ∙ h
    | inl new ↦
        ap (λ o. or_else o (or_else (f g.guest.sources) (f g.runtime.sources)))
          (found new
            ∙ first_found held (f g.mounted) (f g.guest.sources) (f g.runtime.sources)
                (at_root g.mounted m.mounted new) (at_root g.guest.sources m.guest new)
                (at_root g.runtime.sources m.runtime new) h)
  ]

  source_kept : (n : Str) (x : ModuleSource) → source g n ≡ some x → source after n ≡ some x
  unfolding source
  source_kept n x =
      kept (λ s. find s n) (held_source b n) n
        (λ old.
          find-Same g.mounted (with_bundle b g.mounted) n
            (Same-elsewhere g.mounted b m.mounted n old))
        (find_mounted g.mounted b m.mounted n) (λ s y. find_at_root s b y n)

  same_name :
      (n : Str)
      → elem (root n) (roots b) ≡ false
      → canonical (with_bundle b g.mounted) n ≡ canonical g.mounted n
  same_name n old =
      canonical-Same g.mounted (with_bundle b g.mounted) n
        (Same-elsewhere g.mounted b m.mounted n old)

  name_kept : (n k : Str) → name_of g n ≡ some k → name_of after n ≡ some k
  name_kept n k =
      kept (λ s. canonical s n) (held_name b n) n (same_name n)
        (canonical_mounted g.mounted b m.mounted n) (λ s y. canonical_at_root s b y n)

  -- no module of the bundle comes before an index module that is there already
  unnamed_kept :
      (n i k : Str)
      → root i ≡ root n
      → name_of g n ≡ none
      → name_of g i ≡ some k
      → name_of after n ≡ none
  unnamed_kept n i k same none_before h = elim (Bool-cases (elem (root n) (roots b))) [
    | inr old ↦
        ap (λ o. or_else o (or_else (canonical g.guest.sources n) (canonical g.runtime.sources n)))
          (same_name n old)
        ∙ none_before
    | inl new ↦ ground (
      arith,
      canonical_mounted g.mounted b m.mounted n new,
      canonical_beside g.mounted b m.mounted n new i same,
      canonical_beside g.guest.sources b m.guest n new i same,
      canonical_beside g.runtime.sources b m.runtime n new i same,
    )
  ]

  candidate_kept : (n k : Str) → candidate g n ≡ some k → candidate after n ≡ some k
  unfolding candidate
  candidate_kept n k h = elim (candidate-cases g n k h) [
    | inl e ↦ ap (λ o. or_else o (name_of after (index_of n))) (name_kept n k e)
    | inr (no_name, e) ↦
        ap (λ o. or_else o (name_of after (index_of n)))
          (unnamed_kept n (index_of n) k (root-index n) no_name e)
        ∙ name_kept (index_of n) k e
  ]

  locate_kept : (n located : Str) → locate g n ≡ ok located → locate after n ≡ ok located
  unfolding is_denied
  locate_kept n located h =
      let (c, n_ok, l_ok) = (locate_iff g n located).0 h in
      (locate_iff after n located).1 (candidate_kept n located c, n_ok, l_ok)

at_result :
    (g : GuestBindings) (b : Bundle) {h : GuestBindings}
    → Mounted g b h
    → Mounted g b (record g { mounted = with_bundle b g.mounted })
at_result g b m = record {
  result = refl;
  runtime = m.runtime;
  guest = m.guest;
  mounted = m.mounted;
}

-- A bundle that is mounted on valid bindings, in which a bundle of its id is a clone of it, leaves
-- every name that has a source with the source that it had.
pub source-mount :
    (g : GuestBindings) (b : Bundle) {h : GuestBindings} (n : Str) (x : ModuleSource)
    → IsValidBindings g
    → IsSharedIn g b
    → mount g b ≡ ok h
    → source g n ≡ some x
    → source h n ≡ some x
source-mount g b n x v shared e known =
    let m = mount_sound g b v shared e in
    subst (λ k. source k n ≡ some x) (sym m.result) (source_kept g b (at_result g b m) n x known)

-- A bundle that is mounted on valid bindings, in which a bundle of its id is a clone of it, leaves
-- every name that can be located where it was: no module of the bundle takes the place of a module,
-- an alias or an index module that the guest could import before.
pub locate-mount :
    (g : GuestBindings) (b : Bundle) {h : GuestBindings} (n located : Str)
    → IsValidBindings g
    → IsSharedIn g b
    → mount g b ≡ ok h
    → locate g n ≡ ok located
    → locate h n ≡ ok located
locate-mount g b n located v shared e known =
    let m = mount_sound g b v shared e in
    subst (λ k. locate k n ≡ ok located) (sym m.result)
      (locate_kept g b (at_result g b m) n located known)

pub mount-IsValidBindings :
    (g : GuestBindings) (b : Bundle) {h : GuestBindings}
    → IsValidBindings g
    → mount g b ≡ ok h
    → IsValidBindings h
unfolding mount
mount-IsValidBindings g b {h} v e =
    let (_, c, rest) = >>=-eq-ok (check_bundle g.runtime.sources b) _ e in
    let (_, d, last) = >>=-eq-ok (check_bundle g.guest.sources b) _ rest in
    let (t, i, made) =
      >>=-eq-ok (insert_bundle b g.mounted) (λ t. ok (record g { mounted = t })) last in
    let made_of : record g { mounted = t } ≡ h = ground arith in
    subst IsValidBindings made_of (record {
      mounted = insert_bundle-IsValid b g.mounted v.mounted i;
      guest = v.guest;
      runtime = v.runtime;
    })

-- After a bundle was mounted on valid bindings, in which a bundle of its id is a clone of it, every
-- module of the bundle has that bundle as its source.
pub source-mounted :
    (g : GuestBindings) (b : Bundle) {h : GuestBindings} (n : Str)
    → IsValidBindings g
    → IsSharedIn g b
    → mount g b ≡ ok h
    → contains b n ≡ true
    → source h n ≡ some (bundle b)
unfolding source
source-mounted g b n v shared e inside =
    let m = mount_sound g b v shared e in
    subst (λ k. source k n ≡ some (bundle b)) (sym m.result)
      (ground (arith, find_mounted g.mounted b m.mounted n (roots_complete b n inside)))
