-- ===== src/Imports/Bindings/Mounts.antt =====
-- Series of mounts (`GuestBindings::mount` of crates/guestjs-core/src/imports/bindings.rs): what is
-- mounted never contradicts the layers below.
use guestjs.Prelude.{◌≡◌, sym, ap, ◌∙◌, ◌⊎◌, inl, inr, Option, none, some, arith, Bool-cases, subst}
use guestjs.Text.{Str}
use guestjs.Errors.{ok}
use guestjs.Dict.{elem}
use guestjs.Bundle.{Bundle, roots}
use guestjs.Bundle.Name.{root}
use guestjs.Catalog.Sources.{Sources, ModuleSource, canonical, find, empty}
use guestjs.Catalog.Sources.Claims.{with_bundle}
use guestjs.Catalog.Sources.Growth.{find-Same, canonical-Same}
use guestjs.Imports.Bindings.{GuestBindings, mount}
use guestjs.Imports.Bindings.Laws.{IsValidBindings}
use guestjs.Imports.Bindings.Layers.{
  held_source, held_name, Yields, find_at_root, canonical_at_root, find_mounted, canonical_mounted,
  Same-elsewhere,
}
use guestjs.Imports.Bindings.Mounting.{IsSharedIn, mount_sound, mount-IsValidBindings}

-- The bindings that come of these after some bundles were mounted, one after the other; a bundle of
-- the guest that has the id of a mounted one is a clone of it.
pub data Mounts (g : GuestBindings) : GuestBindings → Type 0 where
  no_mount : Mounts g g
  then_mount :
      {h k : GuestBindings}
      → Mounts g h
      → (b : Bundle) → IsSharedIn h b
      → mount h b ≡ ok k
      → Mounts g k

-- Where both layers have an answer, it is one answer.
abbrev pub Agrees {ℓ} : {A : Type ℓ} → (Sources → Option A) → Sources → Sources → Type ℓ
Agrees {A = A} f s t = (x y : A) → f s ≡ some x → f t ≡ some y → x ≡ y

-- What is mounted gives a name the source and the canonical name that the layers below give it, if
-- they give it any.
pub record IsHarmless (g : GuestBindings) : Type 0 where
  pub guest_source : (n : Str) → Agrees (λ s. find s n) g.mounted g.guest.sources
  pub runtime_source : (n : Str) → Agrees (λ s. find s n) g.mounted g.runtime.sources
  pub guest_name : (n : Str) → Agrees (λ s. canonical s n) g.mounted g.guest.sources
  pub runtime_name : (n : Str) → Agrees (λ s. canonical s n) g.mounted g.runtime.sources

at_root-Agrees {ℓ} :
    {A : Type ℓ} (f : Sources → Option A) (held : Option A) (s t : Sources)
    → f s ≡ held
    → (f t ≡ none) ⊎ (f t ≡ held)
    → Agrees f s t
at_root-Agrees f held s t new old x y h k = ground arith

elsewhere-Agrees {ℓ} :
    {A : Type ℓ} (f : Sources → Option A) (r s t : Sources)
    → f s ≡ f r
    → Agrees f r t
    → Agrees f s t
elsewhere-Agrees f r s t same a x y h k = a x y (sym same ∙ h) k

module _ (s : Sources) (b : Bundle) (y : Yields s b) (t : Sources) (under : Yields t b)
    (n : Str) where
  source-Agrees : Agrees (λ r. find r n) s t → Agrees (λ r. find r n) (with_bundle b s) t
  source-Agrees a = elim (Bool-cases (elem (root n) (roots b))) [
    | inl new ↦
        at_root-Agrees (λ r. find r n) (held_source b n) (with_bundle b s) t
          (find_mounted s b y n new) (find_at_root t b under n new)
    | inr old ↦
        elsewhere-Agrees (λ r. find r n) s (with_bundle b s) t
          (find-Same s (with_bundle b s) n (Same-elsewhere s b y n old)) a
  ]

  name-Agrees : Agrees (λ r. canonical r n) s t → Agrees (λ r. canonical r n) (with_bundle b s) t
  name-Agrees a = elim (Bool-cases (elem (root n) (roots b))) [
    | inl new ↦
        at_root-Agrees (λ r. canonical r n) (held_name b n) (with_bundle b s) t
          (canonical_mounted s b y n new) (canonical_at_root t b under n new)
    | inr old ↦
        elsewhere-Agrees (λ r. canonical r n) s (with_bundle b s) t
          (canonical-Same s (with_bundle b s) n (Same-elsewhere s b y n old)) a
  ]

mount-IsHarmless :
    (g : GuestBindings) (b : Bundle) {h : GuestBindings}
    → IsValidBindings g
    → IsSharedIn g b
    → mount g b ≡ ok h
    → IsHarmless g
    → IsHarmless h
mount-IsHarmless g b v shared e a =
    let m = mount_sound g b v shared e in
    subst IsHarmless (sym m.result) (record {
      guest_source =
          λ n. source-Agrees g.mounted b m.mounted g.guest.sources m.guest n (a.guest_source n);
      runtime_source = λ n.
          source-Agrees g.mounted b m.mounted g.runtime.sources m.runtime n (a.runtime_source n);
      guest_name =
          λ n. name-Agrees g.mounted b m.mounted g.guest.sources m.guest n (a.guest_name n);
      runtime_name =
          λ n. name-Agrees g.mounted b m.mounted g.runtime.sources m.runtime n (a.runtime_name n);
    })

pub empty-IsHarmless : (g : GuestBindings) → g.mounted ≡ empty → IsHarmless g
unfolding find canonical empty guestjs.Dict.get guestjs.Catalog.Sources.alias
    guestjs.Dict.contains_key
empty-IsHarmless g e = record {
  guest_source = λ n x y h k. cc (sym (ap (λ s. find s n) e) ∙ h);
  runtime_source = λ n x y h k. cc (sym (ap (λ s. find s n) e) ∙ h);
  guest_name = λ n x y h k. cc (sym (ap (λ s. canonical s n) e) ∙ h);
  runtime_name = λ n x y h k. cc (sym (ap (λ s. canonical s n) e) ∙ h);
}

pub Mounts-IsHarmless :
    {g h : GuestBindings}
    → IsValidBindings g
    → IsHarmless g
    → Mounts g h
    → IsValidBindings h × IsHarmless h
Mounts-IsHarmless v a no_mount = (v, a)
Mounts-IsHarmless v a (then_mount {h = h} ms b shared e) =
    let (valid, harmless) = Mounts-IsHarmless v a ms in
    (mount-IsValidBindings h b valid e, mount-IsHarmless h b valid shared e harmless)
