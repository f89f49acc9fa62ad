-- ===== src/Builder/Offers.antt =====
-- What the calls on the builders (crates/guestjs-core/src/builder.rs) leave in the bindings of a guest.
use guestjs.Prelude.{◌≡◌, refl, true, Option, List, [], ◌∷◌, arith}
use guestjs.Text.{Str}
use guestjs.Errors.{Result, ok, >>=-eq-ok}
use guestjs.Bundle.Name.{is_within}
use guestjs.Catalog.{Catalog, host, native, bundle, deny}
use guestjs.Catalog.Denied.{denies}
use guestjs.Catalog.Offers.{
  OffersHosts, OffersNatives, OffersBundle, OffersHosts-Grows, OffersNatives-Grows, CatalogGrows,
  CatalogGrows-refl, CatalogGrows-trans, host-Grows, native-Grows, bundle-Grows, deny-Grows,
}
use guestjs.Policy.{ExecutionPolicy}
use guestjs.Imports.Bindings.{GuestBindings}
use guestjs.Imports.Bindings as Bindings
use guestjs.Builder.{
  RuntimeBuilder, new_runtime_builder, RuntimeCall, bind, bind_native, bind_bundle, call_runtime,
  call_runtime_all, GuestBuilder, new_guest_builder, GuestCall, call_guest, call_guest_all,
  bindings_of, guest_bind, guest_bind_native, guest_bind_bundle, guest_deny, guest_policy,
  guest_timeout, deny_name, set_policy, set_timeout, set_cancellation,
}

-- The catalog denies the name and everything within it.
abbrev pub Denies : Str → Catalog → Type 0
Denies name c = (n : Str) → is_within n name ≡ true → denies c.denied n ≡ true

-- What a call is made for: the modules with their aliases, the roots of the bundle, or the denial.
abbrev pub Offers : RuntimeCall → Catalog → Type 0
Offers (bind library) c = OffersHosts library.modules c.sources
Offers (bind_native library) c = OffersNatives library.modules c.sources
Offers (bind_bundle b) c = OffersBundle b c.sources
Offers (deny_name name) c = Denies name c
Offers _ c = Unit

abbrev pub OffersAll : List RuntimeCall → Catalog → Type 0
OffersAll [] c = Unit
OffersAll (call ∷ calls) c = Offers call c × OffersAll calls c

-- The guest's calls have the meaning of the runtime's.
abbrev pub as_runtime_call : GuestCall → RuntimeCall
as_runtime_call (guest_bind library) = bind library
as_runtime_call (guest_bind_native library) = bind_native library
as_runtime_call (guest_bind_bundle b) = bind_bundle b
as_runtime_call (guest_deny name) = deny_name name
as_runtime_call (guest_policy policy) = set_policy policy
as_runtime_call (guest_timeout limit) = set_timeout limit

abbrev pub GuestOffersAll : List GuestCall → Catalog → Type 0
GuestOffersAll [] c = Unit
GuestOffersAll (call ∷ calls) c = Offers (as_runtime_call call) c × GuestOffersAll calls c

Offers-Grows :
    (call : RuntimeCall) (c d : Catalog) → CatalogGrows c d → Offers call c → Offers call d
Offers-Grows (bind library) c d g o =
    OffersHosts-Grows library.modules c.sources d.sources g.sources o
Offers-Grows (bind_native library) c d g o =
    OffersNatives-Grows library.modules c.sources d.sources g.sources o
Offers-Grows (bind_bundle b) c d g o = λ r i. g.sources.bundles r b (o r i)
Offers-Grows (deny_name name) c d g o = λ n w. g.denied n (o n w)
Offers-Grows (set_policy p) c d g o = tt
Offers-Grows (set_timeout t) c d g o = tt
Offers-Grows (set_cancellation s) c d g o = tt

-- A call that leaves no error had none before it, and leaves all there was.
record Called (before : Result Catalog) (call : RuntimeCall) (after : Catalog) : Type 0 where
  catalog : Catalog
  was : before ≡ ok catalog
  grows : CatalogGrows catalog after
  offers : Offers call after

deny-Called :
    (name : Str) (c d : Catalog) {before : Result Catalog}
    → before ≡ ok c
    → ok (deny name c) ≡ ok d
    → Called before (deny_name name) d
deny-Called name c d f g =
    let same : deny name c ≡ d = ground (arith, g) in
    let (grown, denied) = deny-Grows name c in
    rw (← same) (record { catalog = c; was = f; grows = grown; offers = denied })

call_runtime-Called :
    (call : RuntimeCall) (b : RuntimeBuilder) {d : Catalog}
    → (call_runtime call b).catalog ≡ ok d
    → Called b.catalog call d
unfolding call_runtime
call_runtime-Called (bind library) b e =
    let (c, f, g) = >>=-eq-ok b.catalog (host library) e in
    let (grown, offers) = host-Grows library c g in
    record { catalog = c; was = f; grows = grown; offers = offers }
call_runtime-Called (bind_native library) b e =
    let (c, f, g) = >>=-eq-ok b.catalog (native library) e in
    let (grown, offers) = native-Grows library c g in
    record { catalog = c; was = f; grows = grown; offers = offers }
call_runtime-Called (bind_bundle x) b e =
    let (c, f, g) = >>=-eq-ok b.catalog (bundle x) e in
    let (grown, offers) = bundle-Grows x c g in
    record { catalog = c; was = f; grows = grown; offers = offers }
call_runtime-Called (deny_name name) b {d} e =
    let (c, f, g) = >>=-eq-ok b.catalog (λ c. ok (deny name c)) e in deny-Called name c d f g
call_runtime-Called (set_policy p) b {d} e = record {
  catalog = d;
  was = e;
  grows = CatalogGrows-refl d;
  offers = tt;
}
call_runtime-Called (set_timeout t) b {d} e = record {
  catalog = d;
  was = e;
  grows = CatalogGrows-refl d;
  offers = tt;
}
call_runtime-Called (set_cancellation s) b {d} e = record {
  catalog = d;
  was = e;
  grows = CatalogGrows-refl d;
  offers = tt;
}

call_guest-Called :
    (call : GuestCall) (b : GuestBuilder) {d : Catalog}
    → (call_guest call b).catalog ≡ ok d
    → Called b.catalog (as_runtime_call call) d
unfolding call_guest
call_guest-Called (guest_bind library) b e =
    let (c, f, g) = >>=-eq-ok b.catalog (host library) e in
    let (grown, offers) = host-Grows library c g in
    record { catalog = c; was = f; grows = grown; offers = offers }
call_guest-Called (guest_bind_native library) b e =
    let (c, f, g) = >>=-eq-ok b.catalog (native library) e in
    let (grown, offers) = native-Grows library c g in
    record { catalog = c; was = f; grows = grown; offers = offers }
call_guest-Called (guest_bind_bundle x) b e =
    let (c, f, g) = >>=-eq-ok b.catalog (bundle x) e in
    let (grown, offers) = bundle-Grows x c g in
    record { catalog = c; was = f; grows = grown; offers = offers }
call_guest-Called (guest_deny name) b {d} e =
    let (c, f, g) = >>=-eq-ok b.catalog (λ c. ok (deny name c)) e in deny-Called name c d f g
call_guest-Called (guest_policy p) b {d} e = record {
  catalog = d;
  was = e;
  grows = CatalogGrows-refl d;
  offers = tt;
}
call_guest-Called (guest_timeout t) b {d} e = record {
  catalog = d;
  was = e;
  grows = CatalogGrows-refl d;
  offers = tt;
}

-- What a series of calls leaves: the catalog before it has grown into one that has all the offers.
runtime_all-Offers :
    (calls : List RuntimeCall) (b : RuntimeBuilder) {d : Catalog}
    → (call_runtime_all calls b).catalog ≡ ok d
    → (c : Catalog) × (b.catalog ≡ ok c) × CatalogGrows c d × OffersAll calls d
unfolding call_runtime_all
runtime_all-Offers [] b {d} e = (d, e, CatalogGrows-refl d, tt)
runtime_all-Offers (call ∷ calls) b {d} e =
    let (u, f, grown, offers) = runtime_all-Offers calls (call_runtime call b) e in
    let called = call_runtime-Called call b f in
    (
      called.catalog,
      called.was,
      CatalogGrows-trans called.catalog u d called.grows grown,
      (Offers-Grows call u d grown called.offers, offers),
    )

guest_all-Offers :
    (calls : List GuestCall) (b : GuestBuilder) {d : Catalog}
    → (call_guest_all calls b).catalog ≡ ok d
    → (c : Catalog) × (b.catalog ≡ ok c) × CatalogGrows c d × GuestOffersAll calls d
unfolding call_guest_all
guest_all-Offers [] b {d} e = (d, e, CatalogGrows-refl d, tt)
guest_all-Offers (call ∷ calls) b {d} e =
    let (u, f, grown, offers) = guest_all-Offers calls (call_guest call b) e in
    let called = call_guest-Called call b f in
    (
      called.catalog,
      called.was,
      CatalogGrows-trans called.catalog u d called.grows grown,
      (Offers-Grows (as_runtime_call call) u d grown called.offers, offers),
    )

-- Whatever calls build a runtime and a guest, if no call has failed then each of them has its effect
-- on the bindings, however many come after it: every module of a host or native library that was
-- bound is in its layer under its name, every alias of a native module names it, every root of a
-- bundle is owned by a bundle of that id, and a name that was denied is denied with all within it.
-- Nothing is mounted.
pub bindings_of-Offers :
    (runtime_calls : List RuntimeCall) (guest_calls : List GuestCall)
    (policy : Option ExecutionPolicy) {c : Catalog} {g : GuestBindings}
    → (call_runtime_all runtime_calls new_runtime_builder).catalog ≡ ok c
    → bindings_of c (call_guest_all guest_calls (new_guest_builder policy)) ≡ ok g
    → OffersAll runtime_calls g.runtime
      × GuestOffersAll guest_calls g.guest
      × (g.mounted ≡ guestjs.Catalog.Sources.empty)
unfolding bindings_of Bindings.new
bindings_of-Offers rs gs policy {c} {g} r e =
    let (_, _, _, below) = runtime_all-Offers rs new_runtime_builder r in
    let (d, f, made) =
      >>=-eq-ok (call_guest_all gs (new_guest_builder policy)).catalog (λ d. ok (Bindings.new c d))
        e in
    let (_, _, _, above) = guest_all-Offers gs (new_guest_builder policy) f in
    let same : Bindings.new c d ≡ g = ground (arith, made) in rw (← same) (below, above, refl)
