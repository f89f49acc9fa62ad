-- ===== src/Catalog/Sources/Claims.antt =====
-- What the checks of an insertion have established when they pass.
use guestjs.Prelude.{
  ◌≡◌, ◌≢◌, refl, sym, ap, ◌∙◌, ◌⊎◌, inl, inr, Bool, true, false, ◌||◌, Option, none, some, List,
  [], ◌∷◌, ◌++◌, any, arith, Bool-cases, false≢true, map, subst,
}
use guestjs.Text.{Str, str_eq}
use guestjs.Text.Order.{eq_of_str_eq}
use guestjs.Errors.{Result, ok, err, try_for_each, >>=-eq-ok, ◌>>◌}
use guestjs.Dict.{get, insert, extend, contains_key, keys, elem}
use guestjs.Dict.Laws.{elem-keys}
use guestjs.Bundle.{Bundle, roots}
use guestjs.Bundle.Name.{root, is_within}
use guestjs.Bundle.Name.Laws.{is_within-root}
use guestjs.Bundle.Roots.{roots-no_slash}
use guestjs.Catalog.Native.{NativeModule}
use guestjs.Catalog.Sources.{
  Sources, ModuleDeclaration, host, native, insert_host, insert_native, insert_bundle, claim,
  check_owner, check_bundle,
}

pub record IsFree (s : Sources) (name : Str) : Type 0 where
  pub modules : contains_key name s.modules ≡ false
  pub aliases : contains_key name s.aliases ≡ false
  pub bundles : contains_key (root name) s.bundles ≡ false

pub claim_sound : (s : Sources) (name : Str) → claim s name ≡ ok tt → IsFree s name
unfolding claim
claim_sound s name h = ground arith

pub claim_complete : (s : Sources) (name : Str) → IsFree s name → claim s name ≡ ok tt
unfolding claim
claim_complete s name h = ground arith

pub try_for_each-elem :
    (f : Str → Result (Unit {0})) (xs : List Str) (x : Str)
    → try_for_each f xs ≡ ok tt
    → elem x xs ≡ true
    → f x ≡ ok tt
unfolding elem
try_for_each-elem f [] x h m = cc
try_for_each-elem f (y ∷ xs) x h m =
    let (_, first, rest) = >>=-eq-ok (f y) (λ _. try_for_each f xs) h in
    elim (Bool-cases (str_eq y x)) [
      | inl e ↦ subst (λ z. f z ≡ ok tt) (eq_of_str_eq y x e) first
      | inr ne ↦ try_for_each-elem f xs x rest (ground arith)
    ]

pub any-elem-false :
    (p : Str → Bool) (xs : List Str) (x : Str) → any p xs ≡ false → elem x xs ≡ true → p x ≡ false
unfolding elem
any-elem-false p [] x h m = cc
any-elem-false p (y ∷ xs) x h m = elim (Bool-cases (str_eq y x)) [
  | inl e ↦ ground (arith, ap p (eq_of_str_eq y x e))
  | inr ne ↦ any-elem-false p xs x (ground arith) (ground arith)
]

check_owner_sound :
    (o : Option Bundle) (b : Bundle) (r : Str) (taken : List Str)
    → check_owner o b r taken ≡ ok tt
    → ((c : Bundle) × (o ≡ some c) × (c.id ≡ b.id))
      ⊎ ((o ≡ none) × (any (λ name. is_within name r) taken ≡ false))
unfolding check_owner
check_owner_sound (some c) b r taken h = inl (c, refl, ground arith)
check_owner_sound none b r taken h = inr (refl, ground arith)

elem-append : (k : Str) (xs ys : List Str) → elem k (xs ++ ys) ≡ (elem k xs || elem k ys)
unfolding elem
elem-append k [] ys = refl
elem-append k (x ∷ xs) ys = ground (arith, elem-append k xs ys)

-- What `check_bundle` establishes at a root of the bundle.
pub check_bundle_sound :
    (s : Sources) (b : Bundle) (r : Str)
    → check_bundle s b ≡ ok tt
    → elem r (roots b) ≡ true
    → ((c : Bundle) × (get r s.bundles ≡ some c) × (c.id ≡ b.id))
      ⊎ ((get r s.bundles ≡ none)
          × ((name : Str)
              → (contains_key name s.modules || contains_key name s.aliases) ≡ true
              → root name ≢ r))
unfolding check_bundle
check_bundle_sound s b r h m =
    let taken = keys s.modules ++ keys s.aliases in
    elim (check_owner_sound (get r s.bundles) b r taken
      (try_for_each-elem (λ r. check_owner (get r s.bundles) b r taken) (roots b) r h m)) [
        | inl held ↦ inl held
        | inr (free, apart) ↦ inr (
          free,
          λ name bound e. false≢true (
              sym (any-elem-false (λ n. is_within n r) taken name apart (is_taken name bound))
              ∙ (is_within-root name r (roots-no_slash b r m)).1 e),
        )
      ]
  where
    is_taken :
        (name : Str)
        → (contains_key name s.modules || contains_key name s.aliases) ≡ true
        → elem name (keys s.modules ++ keys s.aliases) ≡ true
    is_taken name bound = ground (
      arith,
      elem-append name (keys s.modules) (keys s.aliases),
      elem-keys name s.modules,
      elem-keys name s.aliases,
    )

-- ------------------------------------------------------------------ successful insertions

unit_bind :
    (m : Result (Unit {0})) {A : Type 0} (a : A) {b : A}
    → (m >> ok a) ≡ ok b
    → (m ≡ ok tt) × (b ≡ a)
unit_bind (ok _) a h = (refl, ground arith)
unit_bind (err e) a h = cc

pub insert_host_sound :
    (m : ModuleDeclaration) (s : Sources) {s' : Sources}
    → insert_host m s ≡ ok s'
    → IsFree s m.name × (s' ≡ record s { modules = insert m.name (host m) s.modules })
unfolding insert_host
insert_host_sound m s h = let (c, e) = unit_bind (claim s m.name) _ h in (claim_sound s m.name c, e)

abbrev pub with_native : NativeModule → Sources → Sources
with_native m s = record s {
  aliases = extend (map (λ a. (a, m.name)) m.aliases) s.aliases;
  modules = insert m.name (native m) s.modules;
}

pub insert_native_sound :
    (m : NativeModule) (s : Sources) {s' : Sources}
    → insert_native m s ≡ ok s'
    → IsFree s m.name × ((a : Str) → elem a m.aliases ≡ true → IsFree s a) × (s' ≡ with_native m s)
unfolding insert_native
insert_native_sound m s h =
    let (_, c, rest) = >>=-eq-ok (claim s m.name) _ h in
    let (cs, e) = unit_bind (try_for_each (claim s) m.aliases) (with_native m s) rest in
    (
      claim_sound s m.name c,
      λ a i. claim_sound s a (try_for_each-elem (claim s) m.aliases a cs i),
      e,
    )

abbrev pub with_bundle : Bundle → Sources → Sources
with_bundle b s = record s { bundles = extend (map (λ r. (r, b)) (roots b)) s.bundles }

pub insert_bundle_sound :
    (b : Bundle) (s : Sources) {s' : Sources}
    → insert_bundle b s ≡ ok s'
    → (check_bundle s b ≡ ok tt) × (s' ≡ with_bundle b s)
unfolding insert_bundle
insert_bundle_sound b s h = unit_bind (check_bundle s b) (with_bundle b s) h
