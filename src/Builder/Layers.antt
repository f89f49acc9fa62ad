-- ===== src/Builder/Layers.antt =====
-- The bindings that builders (crates/guestjs-core/src/builder.rs) make are valid.
use guestjs.Prelude.{◌≡◌, Option, List, [], ◌∷◌, arith}
use guestjs.Errors.{Result, ok, >>=-eq-ok}
use guestjs.Catalog.{Catalog, host, native, bundle, deny}
use guestjs.Catalog.Sources.Validity.{empty-IsValid}
use guestjs.Catalog.Laws.{
  AllNative, Built, start, bind, bind_native, bind_bundle, denied, Built-IsValid,
}
use guestjs.Policy.{ExecutionPolicy}
use guestjs.Imports.Bindings.{GuestBindings}
use guestjs.Imports.Bindings as Bindings
use guestjs.Imports.Bindings.Laws.{IsValidBindings}
use guestjs.Imports.Bindings.Mounts.{Mounts, IsHarmless, empty-IsHarmless, Mounts-IsHarmless}
use guestjs.Builder.Offers.{bindings_of-Offers}
use guestjs.Builder.{
  RuntimeBuilder, new_runtime_builder, RuntimeCall, call_runtime, call_runtime_all, GuestBuilder,
  new_guest_builder, GuestCall, call_guest, call_guest_all, bindings_of, guest_bind,
  guest_bind_native, guest_bind_bundle, guest_deny, guest_policy, guest_timeout, deny_name,
  set_policy, set_timeout, set_cancellation,
}
use guestjs.Builder as Builder

-- The modules of each native library are made by `NativeModule::new` and `alias`.
abbrev pub NativeCall : RuntimeCall → Type 0
NativeCall (Builder.bind_native library) = AllNative library.modules
NativeCall _ = Unit

abbrev pub NativeCalls : List RuntimeCall → Type 0
NativeCalls [] = Unit
NativeCalls (call ∷ calls) = NativeCall call × NativeCalls calls

abbrev pub NativeGuestCall : GuestCall → Type 0
NativeGuestCall (guest_bind_native library) = AllNative library.modules
NativeGuestCall _ = Unit

abbrev pub NativeGuestCalls : List GuestCall → Type 0
NativeGuestCalls [] = Unit
NativeGuestCalls (call ∷ calls) = NativeGuestCall call × NativeGuestCalls calls

-- a catalog without an error was built by the catalog's own operations
abbrev IsBuilt : Result Catalog → Type 0
IsBuilt r = (c : Catalog) → r ≡ ok c → Built c

built_ok : {c d : Catalog} → Built c → ok c ≡ ok d → Built d
built_ok {c} {d} b e = let same : c ≡ d = ground arith in rw (← same) b

call_runtime-Built :
    (call : RuntimeCall) (b : RuntimeBuilder)
    → NativeCall call
    → IsBuilt b.catalog
    → IsBuilt (call_runtime call b).catalog
unfolding call_runtime
call_runtime-Built (Builder.bind library) b n v d e =
    let (c, f, g) = >>=-eq-ok b.catalog (host library) e in bind (v c f) library g
call_runtime-Built (Builder.bind_native library) b n v d e =
    let (c, f, g) = >>=-eq-ok b.catalog (native library) e in bind_native (v c f) library n g
call_runtime-Built (Builder.bind_bundle x) b n v d e =
    let (c, f, g) = >>=-eq-ok b.catalog (bundle x) e in bind_bundle (v c f) x g
call_runtime-Built (deny_name name) b n v d e =
    let (c, f, g) = >>=-eq-ok b.catalog (λ c. ok (deny name c)) e in
    built_ok (denied (v c f) name) g
call_runtime-Built (set_policy p) b n v d e = v d e
call_runtime-Built (set_timeout t) b n v d e = v d e
call_runtime-Built (set_cancellation s) b n v d e = v d e

call_guest-Built :
    (call : GuestCall) (b : GuestBuilder)
    → NativeGuestCall call
    → IsBuilt b.catalog
    → IsBuilt (call_guest call b).catalog
unfolding call_guest
call_guest-Built (guest_bind library) b n v d e =
    let (c, f, g) = >>=-eq-ok b.catalog (host library) e in bind (v c f) library g
call_guest-Built (guest_bind_native library) b n v d e =
    let (c, f, g) = >>=-eq-ok b.catalog (native library) e in bind_native (v c f) library n g
call_guest-Built (guest_bind_bundle x) b n v d e =
    let (c, f, g) = >>=-eq-ok b.catalog (bundle x) e in bind_bundle (v c f) x g
call_guest-Built (guest_deny name) b n v d e =
    let (c, f, g) = >>=-eq-ok b.catalog (λ c. ok (deny name c)) e in
    built_ok (denied (v c f) name) g
call_guest-Built (guest_policy p) b n v d e = v d e
call_guest-Built (guest_timeout t) b n v d e = v d e

runtime_calls-Built :
    (calls : List RuntimeCall) (b : RuntimeBuilder)
    → NativeCalls calls
    → IsBuilt b.catalog
    → IsBuilt (call_runtime_all calls b).catalog
unfolding call_runtime_all
runtime_calls-Built [] b n v = v
runtime_calls-Built (call ∷ calls) b (n, ns) v =
    runtime_calls-Built calls (call_runtime call b) ns (call_runtime-Built call b n v)

guest_calls-Built :
    (calls : List GuestCall) (b : GuestBuilder)
    → NativeGuestCalls calls
    → IsBuilt b.catalog
    → IsBuilt (call_guest_all calls b).catalog
unfolding call_guest_all
guest_calls-Built [] b n v = v
guest_calls-Built (call ∷ calls) b (n, ns) v =
    guest_calls-Built calls (call_guest call b) ns (call_guest-Built call b n v)

new-IsValidBindings : (c d : Catalog) → Built c → Built d → IsValidBindings (Bindings.new c d)
unfolding Bindings.new
new-IsValidBindings c d b e = record {
  mounted = empty-IsValid;
  guest = Built-IsValid e;
  runtime = Built-IsValid b;
}

bindings_of-IsValidBindings :
    (runtime_calls : List RuntimeCall) (guest_calls : List GuestCall)
    (policy : Option ExecutionPolicy) {c : Catalog} {g : GuestBindings}
    → NativeCalls runtime_calls
    → NativeGuestCalls guest_calls
    → (call_runtime_all runtime_calls new_runtime_builder).catalog ≡ ok c
    → bindings_of c (call_guest_all guest_calls (new_guest_builder policy)) ≡ ok g
    → IsValidBindings g
unfolding bindings_of new_runtime_builder new_guest_builder
bindings_of-IsValidBindings rs gs policy {c} {g} n m r e =
    let (d, f, made) =
      >>=-eq-ok (call_guest_all gs (new_guest_builder policy)).catalog (λ d. ok (Bindings.new c d))
        e in
    let same : Bindings.new c d ≡ g = ground arith in
    let built = runtime_calls-Built rs new_runtime_builder n (λ c e. built_ok start e) c r in
    let guest_built =
      guest_calls-Built gs (new_guest_builder policy) m (λ c e. built_ok start e) d f in
    rw (← same) (new-IsValidBindings c d built guest_built)

-- Whatever calls build a runtime and a guest, and whatever bundles the guest has mounted since: if
-- no call and no mount has failed then in each layer of the bindings every name has one owner, and a
-- name that is mounted has no other source and no other canonical name among the guest's or the
-- runtime's modules. The native modules are made by `NativeModule::new` and `alias`, and at each
-- mount a bundle of the guest that has the mounted one's id is a clone of it.
pub built-IsHarmless :
    (runtime_calls : List RuntimeCall) (guest_calls : List GuestCall)
    (policy : Option ExecutionPolicy) {c : Catalog} {g h : GuestBindings}
    → NativeCalls runtime_calls
    → NativeGuestCalls guest_calls
    → (call_runtime_all runtime_calls new_runtime_builder).catalog ≡ ok c
    → bindings_of c (call_guest_all guest_calls (new_guest_builder policy)) ≡ ok g
    → Mounts g h
    → IsValidBindings h × IsHarmless h
built-IsHarmless rs gs policy {c} {g} n m r e ms =
    let (_, _, nothing) = bindings_of-Offers rs gs policy r e in
    Mounts-IsHarmless (bindings_of-IsValidBindings rs gs policy n m r e)
      (empty-IsHarmless g nothing) ms
