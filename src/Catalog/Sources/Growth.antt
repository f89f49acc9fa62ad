-- ===== src/Catalog/Sources/Growth.antt =====
-- A name that is bound in a layer keeps its meaning through every later insertion.
use guestjs.Prelude.{
  ◌≡◌, refl, sym, ap, ◌∙◌, ◌⊎◌, inl, inr, Bool, true, false, ◌||◌, none, some, List, arith,
  Bool-cases, is_some, map, subst,
}
use guestjs.Text.{Str, str_eq}
use guestjs.Text.Order.{eq_of_str_eq}
use guestjs.Errors.{ok}
use guestjs.Dict.{Dict, get, insert, extend, contains_key, elem}
use guestjs.Dict.Laws.{get-none, get-insert, get-extend_const}
use guestjs.Bundle.{Bundle, roots}
use guestjs.Bundle.Name.{root}
use guestjs.Catalog.Native.{NativeModule}
use guestjs.Catalog.Sources.{
  Sources, ModuleSource, ModuleDeclaration, host, native, owner, alias, canonical, find,
  insert_host, insert_native, insert_bundle, check_bundle,
}
use guestjs.Catalog.Sources.Claims.{
  IsFree, check_bundle_sound, with_native, with_bundle, insert_host_sound, insert_native_sound,
  insert_bundle_sound,
}
use guestjs.Catalog.Sources.Validity.{IsValid, bound}

pub record Keeps (s t : Sources) : Type 0 where
  pub find : (n : Str) (x : ModuleSource) → find s n ≡ some x → find t n ≡ some x
  pub canonical : (n m : Str) → canonical s n ≡ some m → canonical t n ≡ some m

free_unknown : (s : Sources) (n : Str) → IsFree s n → (find s n ≡ none) × (canonical s n ≡ none)
unfolding find canonical alias
free_unknown s n f =
    let no_module = get-none n s.modules f.modules in
    let no_alias = get-none n s.aliases f.aliases in
    let no_bundle = get-none (root n) s.bundles f.bundles in
    (rw (no_module, no_bundle) refl, rw (f.modules, no_bundle) no_alias)

abbrev pub Same : Sources → Sources → Str → Type 0
Same s t n =
    (get n t.modules ≡ get n s.modules)
    × (get n t.aliases ≡ get n s.aliases)
    × (get (root n) t.bundles ≡ get (root n) s.bundles)

pub find-Same : (s t : Sources) (n : Str) → Same s t n → find t n ≡ find s n
unfolding find
find-Same s t n (m, a, b) = rw (m, b) refl

pub canonical-Same : (s t : Sources) (n : Str) → Same s t n → canonical t n ≡ canonical s n
unfolding canonical contains_key alias
canonical-Same s t n (m, a, b) = cc

-- An insertion may change what was free, and nothing else.
pub Keeps-rule : (s t : Sources) → ((n : Str) → IsFree s n ⊎ Same s t n) → Keeps s t
Keeps-rule s t change = record {
  find = λ n x h. elim (change n) [
    | inl free ↦ cc ((free_unknown s n free).0)
    | inr same ↦ find-Same s t n same ∙ h
  ];
  canonical = λ n m h. elim (change n) [
    | inl free ↦ cc ((free_unknown s n free).1)
    | inr same ↦ canonical-Same s t n same ∙ h
  ];
}

get-insert_ne {ℓ} :
    {V : Type ℓ} (k j : Str) (v : V) (d : Dict V)
    → str_eq k j ≡ false
    → get j (insert k v d) ≡ get j d
get-insert_ne k j v d h = rw (get-insert k j v d, h) refl

pub get-extend_ne {ℓ} :
    {V : Type ℓ} (j : Str) (v : V) (ks : List Str) (d : Dict V)
    → elem j ks ≡ false
    → get j (extend (map (λ k. (k, v)) ks) d) ≡ get j d
get-extend_ne j v ks d h = rw (get-extend_const j v ks d, h) refl

pub get-extend-elem {ℓ} :
    {V : Type ℓ} (j : Str) (v : V) (ks : List Str) (d : Dict V)
    → elem j ks ≡ true
    → get j (extend (map (λ k. (k, v)) ks) d) ≡ some v
get-extend-elem j v ks d h = rw (get-extend_const j v ks d, h) refl

-- Binding a host module keeps every name that is bound already.
pub insert_host-Keeps :
    (m : ModuleDeclaration) (s : Sources) {t : Sources} → insert_host m s ≡ ok t → Keeps s t
insert_host-Keeps m s h =
    let (free, e) = insert_host_sound m s h in
    rw e (
      Keeps-rule s (record s { modules = insert m.name (host m) s.modules })
        λ n. elim (Bool-cases (str_eq m.name n)) [
          | inl same ↦ inl (subst (IsFree s) (eq_of_str_eq m.name n same) free)
          | inr other ↦ inr (get-insert_ne m.name n (host m) s.modules other, refl, refl)
        ])

-- Binding a native module and its aliases keeps every name that is bound already.
pub insert_native-Keeps :
    (m : NativeModule) (s : Sources) {t : Sources} → insert_native m s ≡ ok t → Keeps s t
insert_native-Keeps m s h =
    let (free, free_aliases, e) = insert_native_sound m s h in
    rw e (
      Keeps-rule s (with_native m s) λ n. elim (Bool-cases (str_eq m.name n)) [
        | inl same ↦ inl (subst (IsFree s) (eq_of_str_eq m.name n same) free)
        | inr other ↦ elim (Bool-cases (elem n m.aliases)) [
          | inl new ↦ inl (free_aliases n new)
          | inr old ↦ inr (
            get-insert_ne m.name n (native m) s.modules other,
            get-extend_ne n m.name m.aliases s.aliases old,
            refl,
          )
        ]
      ])

-- two bundles of the layer with one id are clones of one bundle
abbrev pub IsShared : Sources → Bundle → Type 0
IsShared s b = (r : Str) (c : Bundle) → get r s.bundles ≡ some c → c.id ≡ b.id → c ≡ b

unbound-IsFree :
    (s : Sources) (n : Str) → get (root n) s.bundles ≡ none → bound s n ≡ false → IsFree s n
unfolding contains_key
unbound-IsFree s n b h = record {
  modules = ground arith;
  aliases = ground arith;
  bundles = ground arith;
}

-- Binding a bundle keeps every name that is bound already.
pub insert_bundle-Keeps :
    (b : Bundle) (s : Sources) {t : Sources} → IsShared s b → insert_bundle b s ≡ ok t → Keeps s t
insert_bundle-Keeps b s shared h =
    let (checked, e) = insert_bundle_sound b s h in
    rw e (Keeps-rule s (with_bundle b s) (change checked))
  where
    change : check_bundle s b ≡ ok tt → (n : Str) → IsFree s n ⊎ Same s (with_bundle b s) n
    change checked n = elim (Bool-cases (elem (root n) (roots b))) [
      | inr old ↦ inr (refl, refl, get-extend_ne (root n) b (roots b) s.bundles old)
      | inl new ↦ elim (check_bundle_sound s b (root n) checked new) [
        | inl (c, held, same) ↦ inr (
          refl,
          refl,
          get-extend-elem (root n) b (roots b) s.bundles new
              ∙ sym (held ∙ ap some (shared (root n) c held same)),
        )
        | inr (empty, apart) ↦ elim (Bool-cases (bound s n)) [
          | inl taken ↦ absurd (apart n taken refl)
          | inr free ↦ inl (unbound-IsFree s n empty free)
        ]
      ]
    ]

abbrev known : Sources → Str → Bool
known s n = contains_key n s.modules || is_some (owner s n)

known_find : (s : Sources) (n : Str) → known s n ≡ true → is_some (find s n) ≡ true
unfolding find contains_key
known_find s n h = ground arith

known_canonical : (s : Sources) (n : Str) → known s n ≡ true → canonical s n ≡ some n
unfolding canonical
known_canonical s n h = rw h refl

canonical-cases :
    (s : Sources) (n m : Str)
    → canonical s n ≡ some m
    → ((known s n ≡ true) × (n ≡ m)) ⊎ (get n s.aliases ≡ some m)
unfolding canonical alias
canonical-cases s n m h = elim (Bool-cases (known s n)) [
  | inl e ↦ inl (e, ground arith)
  | inr e ↦ inr (ground arith)
]

-- In a valid layer, a canonical name has a source, and is its own canonical name.
pub canonical-find :
    (s : Sources) (n m : Str)
    → IsValid s
    → canonical s n ≡ some m
    → (is_some (find s m) ≡ true) × (canonical s m ≡ some m)
canonical-find s n m v h = (known_find s m found, known_canonical s m found)
  where
    found : known s m ≡ true
    found = elim (canonical-cases s n m h) [
      | inl (k, e) ↦ rw (← e) k
      | inr a ↦ ground (arith, v.target n m a)
    ]

-- Binding a native module with its aliases leaves every name that has a source with that source.
pub find-insert_native :
    (m : NativeModule) (s : Sources) {t : Sources} (n : Str) (x : ModuleSource)
    → insert_native m s ≡ ok t
    → find s n ≡ some x
    → find t n ≡ some x
find-insert_native m s n x e known = (insert_native-Keeps m s e).find n x known
