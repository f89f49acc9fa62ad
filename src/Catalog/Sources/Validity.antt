-- ===== src/Catalog/Sources/Validity.antt =====
-- The invariant of a layer of sources: no name has two owners.
use guestjs.Prelude.{
  ◌≡◌, refl, sym, ◌∙◌, inl, inr, Bool, true, false, ◌||◌, some, arith, Bool-cases, or_eq_true,
}
use guestjs.Text.{Str}
use guestjs.Text.Order.{str_eq_iff}
use guestjs.Errors.{ok}
use guestjs.Dict.{get, insert, contains_key, elem}
use guestjs.Dict.Laws.{contains_key-insert, get-extend_const, contains_key-extend_const}
use guestjs.Bundle.{Bundle, roots}
use guestjs.Bundle.Name.{root}
use guestjs.Catalog.Native.{NativeModule, IsDistinct}
use guestjs.Catalog.Native
use guestjs.Catalog.Sources.{
  Sources, ModuleSource, ModuleDeclaration, host, native, empty, insert_host, insert_native,
  insert_bundle, check_bundle,
}
use guestjs.Catalog.Sources.Claims.{
  IsFree, check_bundle_sound, with_native, with_bundle, insert_host_sound, insert_native_sound,
  insert_bundle_sound,
}

abbrev pub bound : Sources → Str → Bool
bound s name = contains_key name s.modules || contains_key name s.aliases

pub record IsValid (s : Sources) : Type 0 where
  -- a name is a module or an alias, not both
  pub apart : (n : Str) → contains_key n s.aliases ≡ true → contains_key n s.modules ≡ false
  -- an alias names a module
  pub target : (n t : Str) → get n s.aliases ≡ some t → contains_key t s.modules ≡ true
  -- no bundle owns the root of a bound name
  pub unowned : (n : Str) → bound s n ≡ true → contains_key (root n) s.bundles ≡ false
  -- a bundle is kept under its own roots
  pub owned : (r : Str) (b : Bundle) → get r s.bundles ≡ some b → elem r (roots b) ≡ true

pub empty-IsValid : IsValid empty
unfolding empty contains_key get
empty-IsValid = record {
  apart = λ n h. cc;
  target = λ n t h. cc;
  unowned = λ n h. cc;
  owned = λ r b h. cc;
}

with_host-IsValid :
    (name : Str) (source : ModuleSource) (s : Sources)
    → IsValid s
    → IsFree s name
    → IsValid (record s { modules = insert name source s.modules })
with_host-IsValid name source s v free = record {
  apart = λ n h.
      ground (arith, contains_key-insert name n source s.modules, str_eq_iff name n, v.apart n);
  target = λ n t h. ground (arith, contains_key-insert name t source s.modules, v.target n t h);
  unowned = λ n h.
      ground (arith, contains_key-insert name n source s.modules, str_eq_iff name n, v.unowned n);
  owned = v.owned;
}

module _ (m : NativeModule) (s : Sources) (v : IsValid s) (d : Native.IsValid m)
    (free : IsFree s m.name) (free_aliases : (a : Str) → elem a m.aliases ≡ true → IsFree s a) where
  alias_facts :
      (n : Str)
      → contains_key n (with_native m s).aliases ≡ (elem n m.aliases || contains_key n s.aliases)
  alias_facts n = contains_key-extend_const n m.name m.aliases s.aliases

  native_apart :
      (n : Str)
      → contains_key n (with_native m s).aliases ≡ true
      → contains_key n (with_native m s).modules ≡ false
  native_apart n h =
      elim (or_eq_true (elem n m.aliases) (contains_key n s.aliases) (sym (alias_facts n) ∙ h)) [
        | inl new ↦
            let free_alias = free_aliases n new in
            ground (
              arith,
              contains_key-insert m.name n (native m) s.modules,
              str_eq_iff m.name n,
              free_alias.modules,
              d.0,
            )
        | inr old ↦ ground (
          arith,
          contains_key-insert m.name n (native m) s.modules,
          str_eq_iff m.name n,
          v.apart n old,
          free.aliases,
        )
      ]

  native_target :
      (n t : Str)
      → get n (with_native m s).aliases ≡ some t
      → contains_key t (with_native m s).modules ≡ true
  native_target n t h = ground (
    arith,
    get-extend_const n m.name m.aliases s.aliases,
    contains_key-insert m.name t (native m) s.modules,
    str_eq_iff m.name t,
    v.target n t,
  )

  native_unowned :
      (n : Str) → bound (with_native m s) n ≡ true → contains_key (root n) s.bundles ≡ false
  native_unowned n h = elim (Bool-cases (elem n m.aliases)) [
    | inl new ↦ (free_aliases n new).bundles
    | inr old ↦ ground (
      arith,
      alias_facts n,
      contains_key-insert m.name n (native m) s.modules,
      str_eq_iff m.name n,
      v.unowned n,
      free.bundles,
    )
  ]

  with_native-IsValid : IsValid (with_native m s)
  with_native-IsValid = record {
    apart = native_apart;
    target = native_target;
    unowned = native_unowned;
    owned = v.owned;
  }

module _ (b : Bundle) (s : Sources) (v : IsValid s) (checked : check_bundle s b ≡ ok tt) where
  bundle_unowned :
      (n : Str) → bound s n ≡ true → contains_key (root n) (with_bundle b s).bundles ≡ false
  unfolding contains_key
  bundle_unowned n h = elim (Bool-cases (elem (root n) (roots b))) [
    | inl new ↦ elim (check_bundle_sound s b (root n) checked new) [
      | inl (c, held, _) ↦ ground (arith, v.unowned n h)
      | inr (_, apart) ↦ absurd (apart n h refl)
    ]
    | inr old ↦ ground (arith, get-extend_const (root n) b (roots b) s.bundles, v.unowned n h)
  ]

  bundle_owned :
      (r : Str) (c : Bundle) → get r (with_bundle b s).bundles ≡ some c → elem r (roots c) ≡ true
  bundle_owned r c h = elim (Bool-cases (elem r (roots b))) [
    | inl new ↦ ground (arith, get-extend_const r b (roots b) s.bundles)
    | inr old ↦ ground (arith, get-extend_const r b (roots b) s.bundles, v.owned r c)
  ]

  with_bundle-IsValid : IsValid (with_bundle b s)
  with_bundle-IsValid = record {
    apart = v.apart;
    target = v.target;
    unowned = bundle_unowned;
    owned = bundle_owned;
  }

-- Each insertion that succeeds keeps the invariant.
pub insert_host-IsValid :
    (m : ModuleDeclaration) (s : Sources) {s' : Sources}
    → IsValid s
    → insert_host m s ≡ ok s'
    → IsValid s'
insert_host-IsValid m s v h =
    let (free, e) = insert_host_sound m s h in rw e (with_host-IsValid m.name (host m) s v free)

pub insert_native-IsValid :
    (m : NativeModule) (s : Sources) {s' : Sources}
    → Native.IsValid m
    → IsValid s
    → insert_native m s ≡ ok s'
    → IsValid s'
insert_native-IsValid m s d v h =
    let (free, free_aliases, e) = insert_native_sound m s h in
    rw e (with_native-IsValid m s v d free free_aliases)

pub insert_bundle-IsValid :
    (b : Bundle) (s : Sources) {s' : Sources} → IsValid s → insert_bundle b s ≡ ok s' → IsValid s'
insert_bundle-IsValid b s v h =
    let (checked, e) = insert_bundle_sound b s h in rw e (with_bundle-IsValid b s v checked)
