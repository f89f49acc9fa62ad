-- ===== src/Catalog/Offers.antt =====
-- What a call on a catalog (crates/guestjs-core/src/catalog.rs) adds to it, and that later calls
-- leave it there.
use guestjs.Prelude.{◌≡◌, refl, inl, inr, true, some, List, [], ◌∷◌, arith}
use guestjs.Text.{Str}
use guestjs.Errors.{ok, >>=-eq-ok}
use guestjs.Dict.{get, elem}
use guestjs.Bundle.{Bundle, roots}
use guestjs.Bundle.Name.{is_within}
use guestjs.Catalog.{
  Catalog, HostLibrary, NativeLibrary, host, native, bundle, deny, insert_hosts, insert_natives,
}
use guestjs.Catalog.Denied.{denies, denies-deny}
use guestjs.Catalog.Laws.{sources_of}
use guestjs.Catalog.Native.{NativeModule}
use guestjs.Catalog.Sources.{Sources, ModuleDeclaration, insert_host, insert_native, insert_bundle}
use guestjs.Catalog.Sources as Sources
use guestjs.Catalog.Sources.Offers.{
  Owns, Grows, OffersNative, Grows-refl, Grows-trans, insert_host-Grows, insert_native-Grows,
  insert_bundle-Grows,
}

abbrev pub OffersHosts : List ModuleDeclaration → Sources → Type 0
OffersHosts [] s = Unit
OffersHosts (m ∷ ms) s = (get m.name s.modules ≡ some (Sources.host m)) × OffersHosts ms s

abbrev pub OffersNatives : List NativeModule → Sources → Type 0
OffersNatives [] s = Unit
OffersNatives (m ∷ ms) s = OffersNative m s × OffersNatives ms s

abbrev pub OffersBundle : Bundle → Sources → Type 0
OffersBundle b s = (r : Str) → elem r (roots b) ≡ true → Owns s b r

pub OffersHosts-Grows :
    (ms : List ModuleDeclaration) (s t : Sources) → Grows s t → OffersHosts ms s → OffersHosts ms t
OffersHosts-Grows [] s t g h = tt
OffersHosts-Grows (m ∷ ms) s t g (o, os) =
    (g.modules m.name (Sources.host m) o, OffersHosts-Grows ms s t g os)

OffersNative-Grows :
    (m : NativeModule) (s t : Sources) → Grows s t → OffersNative m s → OffersNative m t
OffersNative-Grows m s t g o = record {
  named = g.modules m.name (Sources.native m) o.named;
  aliases = λ a i. g.aliases a m.name (o.aliases a i);
}

pub OffersNatives-Grows :
    (ms : List NativeModule) (s t : Sources) → Grows s t → OffersNatives ms s → OffersNatives ms t
OffersNatives-Grows [] s t g h = tt
OffersNatives-Grows (m ∷ ms) s t g (o, os) =
    (OffersNative-Grows m s t g o, OffersNatives-Grows ms s t g os)

insert_hosts-Grows :
    (ms : List ModuleDeclaration) (s : Sources) {t : Sources}
    → insert_hosts ms s ≡ ok t
    → Grows s t × OffersHosts ms t
unfolding insert_hosts
insert_hosts-Grows [] s {t} h = let same : s ≡ t = ground arith in rw (← same) (Grows-refl s, tt)
insert_hosts-Grows (m ∷ ms) s {t} h =
    let (u, e, rest) = >>=-eq-ok (insert_host m s) (insert_hosts ms) h in
    let (first, offered) = insert_host-Grows m s e in
    let (others, offers) = insert_hosts-Grows ms u rest in
    (Grows-trans s u t first others, (others.modules m.name (Sources.host m) offered, offers))

insert_natives-Grows :
    (ms : List NativeModule) (s : Sources) {t : Sources}
    → insert_natives ms s ≡ ok t
    → Grows s t × OffersNatives ms t
unfolding insert_natives
insert_natives-Grows [] s {t} h = let same : s ≡ t = ground arith in rw (← same) (Grows-refl s, tt)
insert_natives-Grows (m ∷ ms) s {t} h =
    let (u, e, rest) = >>=-eq-ok (insert_native m s) (insert_natives ms) h in
    let (first, offered) = insert_native-Grows m s e in
    let (others, offers) = insert_natives-Grows ms u rest in
    (Grows-trans s u t first others, (OffersNative-Grows m u t others offered, offers))

-- Later calls leave the names and the denials of a catalog.
pub record CatalogGrows (c d : Catalog) : Type 0 where
  pub sources : Grows c.sources d.sources
  pub denied : (n : Str) → denies c.denied n ≡ true → denies d.denied n ≡ true

pub CatalogGrows-refl : (c : Catalog) → CatalogGrows c c
CatalogGrows-refl c = record { sources = Grows-refl c.sources; denied = λ n h. h }

pub CatalogGrows-trans : (c d e : Catalog) → CatalogGrows c d → CatalogGrows d e → CatalogGrows c e
CatalogGrows-trans c d e g h = record {
  sources = Grows-trans c.sources d.sources e.sources g.sources h.sources;
  denied = λ n k. h.denied n (g.denied n k);
}

pub host-Grows :
    (library : HostLibrary) (c : Catalog) {d : Catalog}
    → host library c ≡ ok d
    → CatalogGrows c d × OffersHosts library.modules d.sources
unfolding host
host-Grows library c h =
    let (s, e, same) = sources_of (insert_hosts library.modules c.sources) _ h in
    let (grown, offers) = insert_hosts-Grows library.modules c.sources e in
    rw same (record { sources = grown; denied = λ n k. k }, offers)

pub native-Grows :
    (library : NativeLibrary) (c : Catalog) {d : Catalog}
    → native library c ≡ ok d
    → CatalogGrows c d × OffersNatives library.modules d.sources
unfolding native
native-Grows library c h =
    let (s, e, same) = sources_of (insert_natives library.modules c.sources) _ h in
    let (grown, offers) = insert_natives-Grows library.modules c.sources e in
    rw same (record { sources = grown; denied = λ n k. k }, offers)

pub bundle-Grows :
    (b : Bundle) (c : Catalog) {d : Catalog}
    → bundle b c ≡ ok d
    → CatalogGrows c d × OffersBundle b d.sources
unfolding bundle
bundle-Grows b c h =
    let (s, e, same) = sources_of (insert_bundle b c.sources) _ h in
    let (grown, held) = insert_bundle-Grows b c.sources e in
    rw same (record { sources = grown; denied = λ n k. k }, λ r i. (b, held r i, refl))

pub deny-Grows :
    (name : Str) (c : Catalog)
    → CatalogGrows c (deny name c)
      × ((n : Str) → is_within n name ≡ true → denies (deny name c).denied n ≡ true)
unfolding deny
deny-Grows name c = (
  record {
    sources = Grows-refl c.sources;
    denied = λ n h. (denies-deny c.denied name n).1 (inr h);
  },
  λ n w. (denies-deny c.denied name n).1 (inl w),
)
