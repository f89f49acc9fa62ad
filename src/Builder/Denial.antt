-- ===== src/Builder/Denial.antt =====
-- A name that a builder (crates/guestjs-core/src/builder.rs) was told to deny can never be imported.
use mathlib.Core.List.{Memᴰ}
use guestjs.Prelude.{◌≡◌, ◌⊎◌, inl, inr, true, false, Option, List, [], ◌∷◌, arith, Bool-cases}
use guestjs.Text.{Str}
use guestjs.Errors.{ok, >>=-eq-ok}
use guestjs.Bundle.{Bundle}
use guestjs.Bundle.Name.{is_within}
use guestjs.Catalog.{Catalog}
use guestjs.Catalog.Sources.{check_bundle, insert_bundle}
use guestjs.Policy.{ExecutionPolicy}
use guestjs.Imports.Bindings.{GuestBindings, is_denied, locate, mount}
use guestjs.Imports.Bindings.Laws.{locate_iff}
use guestjs.Imports.Bindings.Mounts.{Mounts, no_mount, then_mount}
use guestjs.Builder.{
  new_runtime_builder, RuntimeCall, call_runtime_all, new_guest_builder, GuestCall, call_guest_all,
  bindings_of, guest_deny, deny_name,
}
use guestjs.Builder.Offers.{
  Denies, Offers, OffersAll, as_runtime_call, GuestOffersAll, bindings_of-Offers,
}

OffersAll-Mem :
    (calls : List RuntimeCall) (call : RuntimeCall) (c : Catalog)
    → Memᴰ call calls
    → OffersAll calls c
    → Offers call c
OffersAll-Mem [] call c m os = elim m [ ]
OffersAll-Mem (x ∷ calls) call c (Memᴰ.head e) (o, os) = rw e o
OffersAll-Mem (x ∷ calls) call c (Memᴰ.tail m) (o, os) = OffersAll-Mem calls call c m os

GuestOffersAll-Mem :
    (calls : List GuestCall) (call : GuestCall) (c : Catalog)
    → Memᴰ call calls
    → GuestOffersAll calls c
    → Offers (as_runtime_call call) c
GuestOffersAll-Mem [] call c m os = elim m [ ]
GuestOffersAll-Mem (x ∷ calls) call c (Memᴰ.head e) (o, os) = rw e o
GuestOffersAll-Mem (x ∷ calls) call c (Memᴰ.tail m) (o, os) = GuestOffersAll-Mem calls call c m os

-- the bindings deny the name and everything within it
abbrev Forbids : Str → GuestBindings → Type 0
Forbids d g = (n : Str) → is_within n d ≡ true → is_denied g n ≡ true

mount-Forbids :
    (d : Str) (g h : GuestBindings) (b : Bundle) → mount g b ≡ ok h → Forbids d g → Forbids d h
unfolding mount is_denied
mount-Forbids d g h b e forbids n w =
    let (_, _, rest) = >>=-eq-ok (check_bundle g.runtime.sources b) _ e in
    let (_, _, last) = >>=-eq-ok (check_bundle g.guest.sources b) _ rest in
    let (t, _, made) =
      >>=-eq-ok (insert_bundle b g.mounted) (λ t. ok (record g { mounted = t })) last in
    let same : record g { mounted = t } ≡ h = ground (arith, made) in rw (← same) (forbids n w)

Mounts-Forbids : (d : Str) (g h : GuestBindings) → Mounts g h → Forbids d g → Forbids d h
Mounts-Forbids d g _ no_mount f = f
Mounts-Forbids d g _ (then_mount {h = h} {k = k} ms b shared e) f =
    mount-Forbids d h k b e (Mounts-Forbids d g h ms f)

not_within :
    (d n : Str) (g : GuestBindings) → Forbids d g → is_denied g n ≡ false → is_within n d ≡ false
not_within d n g f free = elim (Bool-cases (is_within n d)) [
  | inl e ↦ let denied : is_denied g n ≡ true = f n e in cc
  | inr e ↦ e
]

-- Once `deny` was called for a name, on the builder of the runtime or of the guest and among whatever
-- other calls, none of which has failed, neither that name nor any name within it can be located by
-- the guest, nor is it what another name is located as, through an alias or an index module, whatever
-- bundles were mounted since; at each mount a bundle of the guest that has the mounted one's id is a
-- clone of it.
pub denied_unlocated :
    (runtime_calls : List RuntimeCall) (guest_calls : List GuestCall)
    (policy : Option ExecutionPolicy) {c : Catalog} {g h : GuestBindings} (d asked located : Str)
    → (call_runtime_all runtime_calls new_runtime_builder).catalog ≡ ok c
    → bindings_of c (call_guest_all guest_calls (new_guest_builder policy)) ≡ ok g
    → Memᴰ (deny_name d) runtime_calls ⊎ Memᴰ (guest_deny d) guest_calls
    → Mounts g h
    → locate h asked ≡ ok located
    → (is_within asked d ≡ false) × (is_within located d ≡ false)
unfolding is_denied
denied_unlocated rs gs policy {c} {g} {h} d asked located r e told ms found =
    let (below, above, _) = bindings_of-Offers rs gs policy r e in
    let (_, asked_ok, located_ok) = (locate_iff h asked located).0 found in
    let forbids : Forbids d h = Mounts-Forbids d g h ms (start below above) in
    (not_within d asked h forbids asked_ok, not_within d located h forbids located_ok)
  where
    start : OffersAll rs g.runtime → GuestOffersAll gs g.guest → Forbids d g
    start below above n w = elim told [
      | inl m ↦
          let denied : Denies d g.runtime = OffersAll-Mem rs (deny_name d) g.runtime m below in
          ground (arith, denied n w)
      | inr m ↦
          let denied : Denies d g.guest = GuestOffersAll-Mem gs (guest_deny d) g.guest m above in
          ground (arith, denied n w)
    ]
