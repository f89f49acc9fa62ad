-- ===== src/Imports/Bindings.antt =====
-- crates/guestjs-core/src/imports/bindings.rs: the three layers of a guest's modules.
pub mod Laws
pub mod Layers
pub mod Mounting
pub mod Mounts
pub mod Located
use guestjs.Prelude.{
  Bool, true, false, ◌||◌, Option, none, some, List, [], ◌∷◌, ◌++◌, if◌then◌else◌,
}
use guestjs.Text.{Str, codes}
use guestjs.Errors.{Error, Result, ok, err, ok_or, imports, literal, ◌>>=◌, ◌>>◌}
use guestjs.Bundle.{Bundle}
use guestjs.Catalog.{Catalog}
use guestjs.Catalog.Denied.{denies}
use guestjs.Catalog.Sources.{
  Sources, ModuleSource, is_host, canonical, find, check_bundle, insert_bundle, or_else, empty,
}

-- `mounted` is behind a `RefCell`: `mount` returns the bindings with what it has become.
pub record GuestBindings : Type 0 where
  pub runtime : Catalog
  pub guest : Catalog
  pub mounted : Sources

unfoldable pub new : Catalog → Catalog → GuestBindings
unfolding empty
new runtime guest = record { runtime = runtime; guest = guest; mounted = empty }

-- what is mounted, then the guest's, then the runtime's
abbrev pub first {ℓ} : {A : Type ℓ} → GuestBindings → (Sources → Option A) → Option A
first g f = or_else (f g.mounted) (or_else (f g.guest.sources) (f g.runtime.sources))

unfoldable pub source : GuestBindings → Str → Option ModuleSource
source g name = first g (λ s. find s name)

unfoldable pub is_denied : GuestBindings → Str → Bool
is_denied g name = denies g.guest.denied name || denies g.runtime.denied name

abbrev pub name_of : GuestBindings → Str → Option Str
name_of g name = first g (λ s. canonical s name)

abbrev pub index_of : Str → Str
index_of name = name ++ codes "/index"

-- `find_map` over the name and its index module
unfoldable pub candidate : GuestBindings → Str → Option Str
candidate g name = or_else (name_of g name) (name_of g (index_of name))

admit : Bool → Str → Str → Result Str
admit true name located = err (imports name (literal "the name is denied to this guest"))
admit false name located = ok located

unfoldable pub locate : GuestBindings → Str → Result Str
unfolding admit
locate g name = do
  located ←
      ok_or (candidate g name)
        (imports name (literal "no module of that name is bound to this guest"))
  admit (is_denied g name || is_denied g located) name located

abbrev host_source : Option ModuleSource → Bool
host_source none = false
host_source (some x) = is_host x

located_host : GuestBindings → Result Str → Bool
located_host g (ok located) = host_source (source g located)
located_host g (err e) = false

unfoldable pub is_host_module : GuestBindings → Str → Bool
unfolding located_host
is_host_module g name = located_host g (locate g name)

unfoldable pub mount : GuestBindings → Bundle → Result GuestBindings
mount g b = do
  check_bundle g.runtime.sources b
  check_bundle g.guest.sources b
  mounted ← insert_bundle b g.mounted
  ok (record g { mounted = mounted })
