-- ===== src/Imports/Dispatch.antt =====
-- crates/guestjs-core/src/imports/mod.rs: the requests of the engine (`Imports`) and of an
-- application (`GuestModules`) for a module. What the engine then does with the source of a module
-- or with a name to import is left out, and so is the entry into the guest.
pub mod Laws
use guestjs.Prelude.{ℕ, Bool, true, false, Option, none, some, List, [], ◌∷◌}
use guestjs.Text.{Str}
use guestjs.Errors.{
  Error, Result, ok, err, ok_or, unexpected, imports, bundle, literal, format, ◌>>=◌,
}
use guestjs.Bundle.{Bundle, bundle_root, roots}
use guestjs.Catalog.Sources.{ModuleSource}
use guestjs.Runtime.{Runtime, find_guest}
use guestjs.Imports.Resolver.{resolve}
use guestjs.Imports.Bindings.{GuestBindings, locate, source, mount, is_host_module}

-- `Imports::guest`
unfoldable pub requesting_guest : ℕ → Runtime → Result ℕ
requesting_guest context r =
    ok_or (find_guest context r)
      (unexpected (literal "a module was requested by a context that has no guest"))

-- `Imports::resolve` in the guest's entry
unfoldable pub resolve_specifier : GuestBindings → Str → Str → Result Str
resolve_specifier g referrer specifier = do name ← resolve referrer specifier; locate g name

-- the source that `Imports::load` hands to the engine
unfoldable pub load_source : GuestBindings → Str → Result ModuleSource
load_source g name =
    ok_or (source g name) (imports name (literal "no module of that name is bound to this guest"))

load_root : GuestBindings → Bundle → Option Str → Result (GuestBindings × Str)
load_root g b none =
    err (bundle (format "a bundle with the roots {:?} has no single root to load" (roots b)))
load_root g b (some root) = do h ← mount g b; ok (h, root)

-- `GuestModules::load`, up to the import of the root: the bindings and the name to import
unfoldable pub load : GuestBindings → Bundle → Result (GuestBindings × Str)
unfolding load_root
load g b = load_root g b (bundle_root b)

-- `GuestModules::host_module`, up to the import of the name
unfoldable pub host_module : GuestBindings → Str → Result Str
host_module g name = elim (is_host_module g name) [
  | true ↦ ok name
  | false ↦ err (imports name (literal "no host module of that name is bound to this guest"))
]
