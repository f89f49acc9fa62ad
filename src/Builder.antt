-- ===== src/Builder.antt =====
-- `RuntimeBuilder` and `GuestBuilder` of crates/guestjs-core/src/builder.rs: the catalogs and the
-- policies that an application builds. A chain of calls on a builder is a list of calls.
pub mod Layers
pub mod Offers
pub mod Denial
use guestjs.Prelude.{ℕ, Option, none, some, List, [], ◌∷◌, ◌++◌}
use guestjs.Text.{Str}
use guestjs.Errors.{Error, Result, ok, err, ◌>>=◌}
use guestjs.Bundle.{Bundle}
use guestjs.Catalog.{Catalog, HostLibrary, NativeLibrary, host, native, bundle, deny, new}
use guestjs.Policy.{ExecutionPolicy, new_policy, with_timeout, with_cancellation}
use guestjs.Imports.Bindings.{GuestBindings}
use guestjs.Imports.Bindings as Bindings

-- The configuration of the engine is left out.
pub record RuntimeBuilder : Type 0 where
  pub policy : ExecutionPolicy
  pub catalog : Result Catalog

unfoldable pub new_runtime_builder : RuntimeBuilder
new_runtime_builder = record { policy = new_policy; catalog = ok new }

pub data RuntimeCall : Type 0 where
  bind : HostLibrary → RuntimeCall
  bind_native : NativeLibrary → RuntimeCall
  bind_bundle : Bundle → RuntimeCall
  deny_name : Str → RuntimeCall
  set_policy : ExecutionPolicy → RuntimeCall
  set_timeout : ℕ → RuntimeCall
  set_cancellation : ℕ → RuntimeCall

unfoldable pub call_runtime : RuntimeCall → RuntimeBuilder → RuntimeBuilder
call_runtime (bind library) b = record b { catalog = b.catalog >>= host library }
call_runtime (bind_native library) b = record b { catalog = b.catalog >>= native library }
call_runtime (bind_bundle x) b = record b { catalog = b.catalog >>= bundle x }
call_runtime (deny_name name) b = record b { catalog = b.catalog >>= λ c. ok (deny name c) }
call_runtime (set_policy policy) b = record b { policy = policy }
call_runtime (set_timeout limit) b = record b { policy = with_timeout limit b.policy }
call_runtime (set_cancellation signal) b = record b { policy = with_cancellation signal b.policy }

unfoldable pub call_runtime_all : List RuntimeCall → RuntimeBuilder → RuntimeBuilder
unfolding call_runtime
call_runtime_all [] b = b
call_runtime_all (call ∷ calls) b = call_runtime_all calls (call_runtime call b)

pub record GuestBuilder : Type 0 where
  pub policy : ExecutionPolicy
  pub catalog : Result Catalog

or_default : Option ExecutionPolicy → ExecutionPolicy
or_default none = new_policy
or_default (some policy) = policy

-- from the policy that the runtime was built with, if it was built by a builder
unfoldable pub new_guest_builder : Option ExecutionPolicy → GuestBuilder
unfolding or_default
new_guest_builder policy = record { policy = or_default policy; catalog = ok new }

pub data GuestCall : Type 0 where
  guest_bind : HostLibrary → GuestCall
  guest_bind_native : NativeLibrary → GuestCall
  guest_bind_bundle : Bundle → GuestCall
  guest_deny : Str → GuestCall
  guest_policy : ExecutionPolicy → GuestCall
  guest_timeout : ℕ → GuestCall

unfoldable pub call_guest : GuestCall → GuestBuilder → GuestBuilder
call_guest (guest_bind library) b = record b { catalog = b.catalog >>= host library }
call_guest (guest_bind_native library) b = record b { catalog = b.catalog >>= native library }
call_guest (guest_bind_bundle x) b = record b { catalog = b.catalog >>= bundle x }
call_guest (guest_deny name) b = record b { catalog = b.catalog >>= λ c. ok (deny name c) }
call_guest (guest_policy policy) b = record b { policy = policy }
call_guest (guest_timeout limit) b = record b { policy = with_timeout limit b.policy }

unfoldable pub call_guest_all : List GuestCall → GuestBuilder → GuestBuilder
unfolding call_guest
call_guest_all [] b = b
call_guest_all (call ∷ calls) b = call_guest_all calls (call_guest call b)

-- The bindings that `GuestBuilder::build` gives to its guest.
unfoldable pub bindings_of : Catalog → GuestBuilder → Result GuestBindings
bindings_of runtime b = b.catalog >>= λ c. ok (Bindings.new runtime c)

-- The initializers that `GuestBuilder::build` runs, in their order.
unfoldable pub initializers : GuestBindings → List ℕ
initializers g =
    g.runtime.host_initializers
    ++ (g.guest.host_initializers ++ (g.runtime.native_initializers ++ g.guest.native_initializers))
