-- ===== src/Catalog/Laws.antt =====
-- Every catalog that an application can build is valid, and no later binding takes a name away.
use guestjs.Prelude.{◌≡◌, refl, List, [], ◌∷◌, arith}
use guestjs.Errors.{Result, ok, err, ◌>>=◌, >>=-eq-ok}
use guestjs.Text.{Str}
use guestjs.Bundle.{Bundle}
use guestjs.Catalog.{
  Catalog, HostLibrary, NativeLibrary, new, host, native, bundle, deny, insert_hosts,
  insert_natives,
}
use guestjs.Catalog.Native.{NativeModule}
use guestjs.Catalog.Native as Native
use guestjs.Catalog.Sources.{Sources, ModuleDeclaration, insert_host, insert_native, insert_bundle}
use guestjs.Catalog.Sources.Validity.{
  IsValid, empty-IsValid, insert_host-IsValid, insert_native-IsValid, insert_bundle-IsValid,
}

abbrev pub AllNative : List NativeModule → Type 0
AllNative [] = Unit
AllNative (m ∷ ms) = Native.IsValid m × AllNative ms

-- The calls that build a catalog, in the order of an application's choice. The modules of a native
-- library are made by `NativeModule::new` and `alias`.
pub data Built : Catalog → Type 0 where
  start : Built new
  bind : {c d : Catalog} → Built c → (library : HostLibrary) → host library c ≡ ok d → Built d
  bind_native :
      {c d : Catalog}
      → Built c
      → (library : NativeLibrary) → AllNative library.modules
      → native library c ≡ ok d
      → Built d
  bind_bundle : {c d : Catalog} → Built c → (b : Bundle) → bundle b c ≡ ok d → Built d
  denied : {c : Catalog} → Built c → (name : Str) → Built (deny name c)

insert_hosts-IsValid :
    (ms : List ModuleDeclaration) (s : Sources) {t : Sources}
    → IsValid s
    → insert_hosts ms s ≡ ok t
    → IsValid t
unfolding insert_hosts
insert_hosts-IsValid [] s {t} v h = let same : s ≡ t = ground arith in rw (← same) v
insert_hosts-IsValid (m ∷ ms) s v h =
    let (u, e, rest) = >>=-eq-ok (insert_host m s) (insert_hosts ms) h in
    insert_hosts-IsValid ms u (insert_host-IsValid m s v e) rest

insert_natives-IsValid :
    (ms : List NativeModule) (s : Sources) {t : Sources}
    → AllNative ms
    → IsValid s
    → insert_natives ms s ≡ ok t
    → IsValid t
unfolding insert_natives
insert_natives-IsValid [] s {t} d v h = let same : s ≡ t = ground arith in rw (← same) v
insert_natives-IsValid (m ∷ ms) s (d, ds) v h =
    let (u, e, rest) = >>=-eq-ok (insert_native m s) (insert_natives ms) h in
    insert_natives-IsValid ms u ds (insert_native-IsValid m s d v e) rest

pub sources_of :
    (r : Result Sources) (f : Sources → Catalog) {d : Catalog}
    → (r >>= λ s. ok (f s)) ≡ ok d
    → (s : Sources) × (r ≡ ok s) × (d ≡ f s)
sources_of (ok s) f h = (s, refl, ground arith)
sources_of (err e) f h = cc

-- In every catalog that can be built, each name has one owner: a module or an alias, of a root that
-- no bundle owns, or a bundle; each alias names a module; each bundle is kept under its own roots.
pub Built-IsValid : {c : Catalog} → Built c → IsValid c.sources
unfolding new host native bundle deny
Built-IsValid start = empty-IsValid
Built-IsValid (bind {c = c} b library h) =
    let (s, e, same) = sources_of (insert_hosts library.modules c.sources) _ h in
    rw same (insert_hosts-IsValid library.modules c.sources (Built-IsValid b) e)
Built-IsValid (bind_native {c = c} b library ds h) =
    let (s, e, same) = sources_of (insert_natives library.modules c.sources) _ h in
    rw same (insert_natives-IsValid library.modules c.sources ds (Built-IsValid b) e)
Built-IsValid (bind_bundle {c = c} b x h) =
    let (s, e, same) = sources_of (insert_bundle x c.sources) _ h in
    rw same (insert_bundle-IsValid x c.sources (Built-IsValid b) e)
Built-IsValid (denied b name) = Built-IsValid b
