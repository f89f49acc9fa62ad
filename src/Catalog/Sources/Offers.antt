-- ===== src/Catalog/Sources/Offers.antt =====
-- What an insertion into a layer (`Sources` of crates/guestjs-core/src/catalog.rs) puts there stays.
use guestjs.Prelude.{◌≡◌, refl, ap, ◌∙◌, inl, inr, true, false, some, arith, Bool-cases}
use guestjs.Text.{Str, str_eq}
use guestjs.Text.Order.{eq_of_str_eq, str_eq_refl}
use guestjs.Errors.{ok}
use guestjs.Dict.{Dict, get, insert, contains_key, elem}
use guestjs.Dict.Laws.{get-none, get-insert}
use guestjs.Bundle.{Bundle, roots}
use guestjs.Catalog.Native.{NativeModule}
use guestjs.Catalog.Sources.{
  Sources, ModuleSource, ModuleDeclaration, insert_host, insert_native, insert_bundle,
}
use guestjs.Catalog.Sources as Sources
use guestjs.Catalog.Sources.Claims.{
  insert_host_sound, insert_native_sound, insert_bundle_sound, check_bundle_sound,
}
use guestjs.Catalog.Sources.Growth.{get-extend_ne, get-extend-elem}

-- the root is owned by a clone of the bundle
abbrev pub Owns : Sources → Bundle → Str → Type 0
Owns s b r = (c : Bundle) × (get r s.bundles ≡ some c) × (c.id ≡ b.id)

pub record Grows (s t : Sources) : Type 0 where
  pub modules : (n : Str) (x : ModuleSource) → get n s.modules ≡ some x → get n t.modules ≡ some x
  pub aliases : (n m : Str) → get n s.aliases ≡ some m → get n t.aliases ≡ some m
  pub bundles : (r : Str) (b : Bundle) → Owns s b r → Owns t b r

pub Grows-refl : (s : Sources) → Grows s s
Grows-refl s = record { modules = λ n x h. h; aliases = λ n m h. h; bundles = λ r b h. h }

pub Grows-trans : (s t u : Sources) → Grows s t → Grows t u → Grows s u
Grows-trans s t u g h = record {
  modules = λ n x k. h.modules n x (g.modules n x k);
  aliases = λ n m k. h.aliases n m (g.aliases n m k);
  bundles = λ r b k. h.bundles r b (g.bundles r b k);
}

-- inserting under a key that is not there keeps what is there
insert_keeps {ℓ} :
    {V : Type ℓ} (k n : Str) (v x : V) (d : Dict V)
    → contains_key k d ≡ false
    → get n d ≡ some x
    → get n (insert k v d) ≡ some x
insert_keeps k n v x d free h = elim (Bool-cases (str_eq k n)) [
  | inl e ↦ ground (arith, ap (λ j. get j d) (eq_of_str_eq k n e), get-none k d free)
  | inr e ↦ rw (get-insert k n v d, e) h
]

pub insert_host-Grows :
    (m : ModuleDeclaration) (s : Sources) {t : Sources}
    → insert_host m s ≡ ok t
    → Grows s t × (get m.name t.modules ≡ some (Sources.host m))
insert_host-Grows m s h =
    let (free, e) = insert_host_sound m s h in
    rw e (
      record {
        modules = λ n x k. insert_keeps m.name n (Sources.host m) x s.modules free.modules k;
        aliases = λ n k g. g;
        bundles = λ r b g. g;
      },
      get-insert m.name m.name (Sources.host m) s.modules ∙ rw (str_eq_refl m.name) refl,
    )

-- what a native module offers
pub record OffersNative (m : NativeModule) (s : Sources) : Type 0 where
  pub named : get m.name s.modules ≡ some (Sources.native m)
  pub aliases : (a : Str) → elem a m.aliases ≡ true → get a s.aliases ≡ some m.name

pub insert_native-Grows :
    (m : NativeModule) (s : Sources) {t : Sources}
    → insert_native m s ≡ ok t
    → Grows s t × OffersNative m t
insert_native-Grows m s h =
    let (free, free_aliases, e) = insert_native_sound m s h in
    rw e (
      record {
        modules = λ n x k. insert_keeps m.name n (Sources.native m) x s.modules free.modules k;
        aliases = λ n k g. elim (Bool-cases (elem n m.aliases)) [
          | inl new ↦ cc (get-none n s.aliases ((free_aliases n new).aliases))
          | inr old ↦ get-extend_ne n m.name m.aliases s.aliases old ∙ g
        ];
        bundles = λ r b g. g;
      },
      record {
        named =
            get-insert m.name m.name (Sources.native m) s.modules ∙ rw (str_eq_refl m.name) refl;
        aliases = λ a i. get-extend-elem a m.name m.aliases s.aliases i;
      },
    )

pub insert_bundle-Grows :
    (b : Bundle) (s : Sources) {t : Sources}
    → insert_bundle b s ≡ ok t
    → Grows s t × ((r : Str) → elem r (roots b) ≡ true → get r t.bundles ≡ some b)
insert_bundle-Grows b s h =
    let (checked, e) = insert_bundle_sound b s h in
    rw e (
      record {
        modules = λ n x k. k;
        aliases = λ n m k. k;
        bundles = λ r c owned. elim (Bool-cases (elem r (roots b))) [
          | inr old ↦ (owned.0, get-extend_ne r b (roots b) s.bundles old ∙ owned.1, owned.2)
          | inl new ↦ elim (check_bundle_sound s b r checked new) [
            | inl (d, held, same) ↦ (
              b,
              get-extend-elem r b (roots b) s.bundles new,
              ground (arith, held, same, owned.1, owned.2),
            )
            | inr (empty, _) ↦ cc (owned.1)
          ]
        ];
      },
      λ r i. get-extend-elem r b (roots b) s.bundles i,
    )
