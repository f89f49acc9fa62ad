-- ===== src/Tests/Catalogs.antt =====
-- Runs of crates/guestjs-core/src/catalog.rs and src/imports/bindings.rs of that crate: a runtime
-- with a native module and its alias, a guest that is denied a name, and a bundle to mount.
use mathlib.Core.List.{Memᴰ}
use guestjs.Prelude.{◌≡◌, refl, inr, false, none, some, [], ◌∷◌}
use guestjs.Text.{codes, str_eq}
use guestjs.Errors.{ok}
use guestjs.Dict.{get, elem, insert, contains_key, extend}
use guestjs.Bundle.{Bundle, contains, roots}
use guestjs.Bundle.Name.{is_within}
use guestjs.Catalog.{Catalog, NativeLibrary, native, deny}
use guestjs.Catalog as Catalog
use guestjs.Catalog.Denied as Denied
use guestjs.Catalog.Denied.{denies, denies-deny, denies-is_within}
use guestjs.Catalog.Native.{NativeModule}
use guestjs.Catalog.Laws.{Built, start, bind_native, Built-IsValid}
use guestjs.Catalog.Sources.{Sources, ModuleSource, empty, insert_native, find, canonical}
use guestjs.Catalog.Sources as Sources
use guestjs.Catalog.Sources.Claims.{with_native, with_bundle}
use guestjs.Catalog.Sources.Validity.{IsValid, empty-IsValid}
use guestjs.Catalog.Sources.Growth.{IsShared}
use guestjs.Builder.{
  call_runtime_all, new_runtime_builder, guest_deny, call_guest_all, new_guest_builder, bindings_of,
}
use guestjs.Builder as Builder
use guestjs.Builder.Layers.{built-IsHarmless}
use guestjs.Builder.Offers.{OffersAll, GuestOffersAll, bindings_of-Offers}
use guestjs.Builder.Denial.{denied_unlocated}
use guestjs.Imports.Bindings.Located.{locate-mounted}
use guestjs.Imports.Bindings.Mounts.{Mounts, no_mount, then_mount, IsHarmless}
use guestjs.Imports.Resolver.{resolve}
use guestjs.Imports.Dispatch.{resolve_specifier, load_source}
use guestjs.Imports.Dispatch.Laws.{resolve-load}
use guestjs.Imports.Bindings.{
  GuestBindings, source, is_denied, name_of, index_of, candidate, locate, mount,
}
use guestjs.Imports.Bindings as Bindings
use guestjs.Imports.Bindings.Laws.{IsValidBindings}
use guestjs.Imports.Bindings.Mounting.{
  IsSharedIn, locate-mount, source-mounted, mount-IsValidBindings,
}

abbrev fs : NativeModule
fs = record { name = codes "node:fs"; aliases = codes "fs" ∷ []; declare = 1 }

abbrev os : NativeModule
os = record { name = codes "node:os"; aliases = []; declare = 2 }

abbrev natives : NativeLibrary
natives = record { modules = fs ∷ []; initializers = 5 ∷ [] }

abbrev runtime_sources : Sources
runtime_sources = with_native fs empty

abbrev runtime_catalog : Catalog
runtime_catalog = record {
  sources = runtime_sources;
  denied = [];
  host_initializers = [];
  native_initializers = 5 ∷ [];
}

abbrev guest_catalog : Catalog
guest_catalog = deny (codes "secret") Catalog.new

abbrev plugin : Bundle
plugin = record {
  id = 1;
  modules = insert (codes "plugin/index") (codes "export {}") [];
  files = [];
}

abbrev bindings : GuestBindings
bindings = Bindings.new runtime_catalog guest_catalog

abbrev mounted : GuestBindings
mounted = record bindings { mounted = with_bundle plugin bindings.mounted }

runtime_Built : Built runtime_catalog
unfolding native elem str_eq insert_native contains_key Catalog.new
runtime_Built = bind_native start natives ((refl, (refl, tt)), tt) refl

Built-IsValid_example : IsValid runtime_catalog.sources
Built-IsValid_example = Built-IsValid runtime_Built

bindings-IsValid : IsValidBindings bindings
unfolding deny Bindings.new Catalog.new
bindings-IsValid = record {
  mounted = empty-IsValid;
  guest = empty-IsValid;
  runtime = Built-IsValid runtime_Built;
}

no_bundles-IsShared : (s : Sources) (b : Bundle) → s.bundles ≡ [] → IsShared s b
unfolding get
no_bundles-IsShared s b e r c h i = let nothing : get r s.bundles ≡ none = rw e refl in cc

bindings-IsSharedIn : IsSharedIn bindings plugin
unfolding empty Bindings.new deny Catalog.new
bindings-IsSharedIn = record {
  runtime = no_bundles-IsShared runtime_sources plugin refl;
  guest = no_bundles-IsShared empty plugin refl;
  mounted = no_bundles-IsShared empty plugin refl;
}

mounts : mount bindings plugin ≡ ok mounted
unfolding mount Sources.check_bundle roots get Bindings.new is_within deny Catalog.new
    Sources.insert_bundle
mounts = refl

fs_before : locate bindings (codes "fs") ≡ ok (codes "node:fs")
unfolding locate Bindings.new deny Catalog.new candidate canonical contains_key Sources.alias str_eq
    is_denied denies Denied.deny extend
fs_before = refl

locate-mount_example : locate mounted (codes "fs") ≡ ok (codes "node:fs")
locate-mount_example =
    locate-mount bindings plugin (codes "fs") (codes "node:fs") bindings-IsValid bindings-IsSharedIn
      mounts fs_before

source-mounted_example : source mounted (codes "plugin/index") ≡ some (Sources.bundle plugin)
unfolding contains str_eq insert
source-mounted_example =
    source-mounted bindings plugin (codes "plugin/index") bindings-IsValid bindings-IsSharedIn
      mounts refl

mounted-IsValid : IsValidBindings mounted
mounted-IsValid = mount-IsValidBindings bindings plugin bindings-IsValid mounts

locate-mounted_example : locate mounted (codes "plugin") ≡ ok (codes "plugin/index")
unfolding canonical contains_key Bindings.new extend roots str_eq Sources.alias deny Catalog.new
    is_denied denies Denied.deny contains insert
locate-mounted_example =
    locate-mounted bindings plugin (codes "plugin") (codes "plugin/index") bindings-IsValid
      bindings-IsSharedIn mounts refl (inr (refl, refl)) refl refl

abbrev node_denied : Denied.DeniedNames
node_denied = (codes "node", tt) ∷ []

runtime_builds :
    (call_runtime_all (Builder.bind_native natives ∷ []) new_runtime_builder).catalog
    ≡ ok runtime_catalog
unfolding call_runtime_all new_runtime_builder native insert_native contains_key Catalog.new
runtime_builds = refl

guest_builds :
    bindings_of runtime_catalog
      (call_guest_all (guest_deny (codes "secret") ∷ []) (new_guest_builder none))
    ≡ ok bindings
unfolding bindings_of call_guest_all new_guest_builder
guest_builds = refl

plugin-Mounts : Mounts bindings mounted
plugin-Mounts = then_mount no_mount plugin bindings-IsSharedIn mounts

built-IsHarmless_example : IsValidBindings mounted × IsHarmless mounted
unfolding elem str_eq
built-IsHarmless_example =
    built-IsHarmless (Builder.bind_native natives ∷ []) (guest_deny (codes "secret") ∷ []) none
      (((refl, (refl, tt)), tt), tt) (tt, tt) runtime_builds guest_builds plugin-Mounts

bindings_of-Offers_example :
    OffersAll (Builder.bind_native natives ∷ []) bindings.runtime
    × GuestOffersAll (guest_deny (codes "secret") ∷ []) bindings.guest
    × (bindings.mounted ≡ empty)
bindings_of-Offers_example =
    bindings_of-Offers (Builder.bind_native natives ∷ []) (guest_deny (codes "secret") ∷ []) none
      runtime_builds guest_builds

fs_located : locate mounted (codes "fs") ≡ ok (codes "node:fs")
fs_located =
    locate-mount bindings plugin (codes "fs") (codes "node:fs") bindings-IsValid bindings-IsSharedIn
      mounts fs_before

denied_unlocated_example :
    (is_within (codes "fs") (codes "secret") ≡ false)
    × (is_within (codes "node:fs") (codes "secret") ≡ false)
denied_unlocated_example =
    denied_unlocated (Builder.bind_native natives ∷ []) (guest_deny (codes "secret") ∷ []) none
      (codes "secret") (codes "fs") (codes "node:fs") runtime_builds guest_builds
      (inr (Memᴰ.head refl)) plugin-Mounts fs_located

fs_resolves : resolve_specifier mounted (codes "plugin/index") (codes "fs") ≡ ok (codes "node:fs")
unfolding resolve_specifier resolve locate candidate canonical contains_key Bindings.new extend
    roots str_eq Sources.alias deny Catalog.new is_denied denies Denied.deny
fs_resolves = refl

resolve-load_example :
    ((x : ModuleSource) × (load_source mounted (codes "node:fs") ≡ ok x))
    × (is_denied mounted (codes "node:fs") ≡ false)
resolve-load_example =
    resolve-load mounted (codes "plugin/index") (codes "fs") (codes "node:fs") mounted-IsValid
      fs_resolves
