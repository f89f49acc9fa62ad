-- ===== src/Catalog.antt =====
-- `Catalog` of crates/guestjs-core/src/catalog.rs with the libraries that it takes
-- (host/library.rs, host/native.rs). An initializer is a shared closure (`Rc`), named by a number.
-- `host`, `native` and `bundle` consume the catalog: on an error nothing of it is left.
pub mod Denied
pub mod Native
pub mod Sources
pub mod Laws
pub mod Offers
use guestjs.Prelude.{ℕ, Bool, Option, none, some, List, [], ◌∷◌, ◌++◌}
use guestjs.Errors.{Result, ok, err, ◌>>=◌}
use guestjs.Text.{Str}
use guestjs.Bundle.{Bundle}
use Denied.{DeniedNames}
use Native.{NativeModule}
use Sources.{ModuleDeclaration, insert_host, insert_native, insert_bundle, empty}

pub record HostLibrary : Type 0 where
  pub modules : List ModuleDeclaration
  pub initializers : List ℕ

pub record NativeLibrary : Type 0 where
  pub modules : List NativeModule
  pub initializers : List ℕ

-- `HostLibrary::extend` and `NativeLibrary::extend`
unfoldable pub extend_host : HostLibrary → HostLibrary → HostLibrary
extend_host library more = record {
  modules = library.modules ++ more.modules;
  initializers = library.initializers ++ more.initializers;
}

unfoldable pub extend_native : NativeLibrary → NativeLibrary → NativeLibrary
extend_native library more = record {
  modules = library.modules ++ more.modules;
  initializers = library.initializers ++ more.initializers;
}

pub record Catalog : Type 0 where
  pub sources : Sources.Sources
  pub denied : DeniedNames
  pub host_initializers : List ℕ
  pub native_initializers : List ℕ

unfoldable pub new : Catalog
unfolding empty
new = record { sources = empty; denied = []; host_initializers = []; native_initializers = [] }

-- `filter_map(|module| module.initializer())`
unfoldable pub module_initializers : List ModuleDeclaration → List ℕ
module_initializers [] = []
module_initializers (m ∷ ms) = elim m.initializer [
  | none ↦ module_initializers ms
  | some i ↦ i ∷ module_initializers ms
]

unfoldable pub insert_hosts : List ModuleDeclaration → Sources.Sources → Result Sources.Sources
insert_hosts [] s = ok s
insert_hosts (m ∷ ms) s = do t ← insert_host m s; insert_hosts ms t

unfoldable pub insert_natives : List NativeModule → Sources.Sources → Result Sources.Sources
insert_natives [] s = ok s
insert_natives (m ∷ ms) s = do t ← insert_native m s; insert_natives ms t

unfoldable pub host : HostLibrary → Catalog → Result Catalog
unfolding insert_hosts module_initializers
host library c = do
  sources ← insert_hosts library.modules c.sources
  ok (record c {
    sources = sources;
    host_initializers =
        c.host_initializers ++ (module_initializers library.modules ++ library.initializers);
  })

unfoldable pub native : NativeLibrary → Catalog → Result Catalog
unfolding insert_natives
native library c = do
  sources ← insert_natives library.modules c.sources
  ok (record c {
    sources = sources;
    native_initializers = c.native_initializers ++ library.initializers;
  })

unfoldable pub bundle : Bundle → Catalog → Result Catalog
bundle b c = do sources ← insert_bundle b c.sources; ok (record c { sources = sources })

unfoldable pub deny : Str → Catalog → Catalog
deny name c = record c { denied = Denied.deny name c.denied }
