-- ===== src/Catalog/Sources.antt =====
-- `ModuleSource` and `Sources` of crates/guestjs-core/src/catalog.rs: the modules, aliases and
-- bundles of one layer, and the checks that keep every name in one hand.
pub mod Claims
pub mod Validity
pub mod Growth
pub mod Offers
use guestjs.Prelude.{
  ℕ, Bool, true, false, ◌||◌, Option, none, some, List, [], ◌∷◌, ◌++◌, map, any, is_some, ◌==◌,
  if◌then◌else◌,
}
use guestjs.Text.{Str}
use guestjs.Errors.{Error, Result, ok, err, imports, literal, try_for_each, ◌>>=◌, ◌>>◌}
use guestjs.Dict.{Dict, get, insert, contains_key, keys, extend}
use guestjs.Bundle.{Bundle, contains, roots}
use guestjs.Bundle.Name.{root, is_within}
use guestjs.Catalog.Native.{NativeModule}

-- A declared host module: its name, its initializer, and its shared declaration as a number.
pub record ModuleDeclaration : Type 0 where
  pub name : Str
  pub initializer : Option ℕ
  pub declaration : ℕ

pub data ModuleSource : Type 0 where
  host : ModuleDeclaration → ModuleSource
  native : NativeModule → ModuleSource
  bundle : Bundle → ModuleSource

unfoldable pub is_host : ModuleSource → Bool
is_host (host _) = true
is_host (native _) = true
is_host (bundle _) = false

pub record Sources : Type 0 where
  pub modules : Dict ModuleSource
  pub aliases : Dict Str
  pub bundles : Dict Bundle

unfoldable pub empty : Sources
empty = record { modules = []; aliases = []; bundles = [] }

unfoldable pub claim : Sources → Str → Result (Unit {0})
claim s name =
    if contains_key name s.modules
      || (contains_key name s.aliases || contains_key (root name) s.bundles)
    then err (imports name (literal "the name is already in use"))
    else ok tt

abbrev pub filter {ℓ} : {A : Type ℓ} → (A → Bool) → Option A → Option A
filter p none = none
filter p (some a) = if p a then some a else none

-- `Sources::bundle`
unfoldable pub owner : Sources → Str → Option Bundle
owner s name = filter (λ b. contains b name) (get (root name) s.bundles)

unfoldable pub insert_host : ModuleDeclaration → Sources → Result Sources
unfolding claim
insert_host m s = do claim s m.name; ok (record s { modules = insert m.name (host m) s.modules })

unfoldable pub insert_native : NativeModule → Sources → Result Sources
unfolding claim
insert_native m s = do
  claim s m.name
  try_for_each (claim s) m.aliases
  ok (record s {
    aliases = extend (map (λ a. (a, m.name)) m.aliases) s.aliases;
    modules = insert m.name (native m) s.modules;
  })

pub check_owner : Option Bundle → Bundle → Str → List Str → Result (Unit {0})
check_owner (some c) b r names =
    if c.id == b.id
    then ok tt
    else err (imports r (literal "a different bundle already owns this root"))
check_owner none b r names =
    if any (λ name. is_within name r) names
    then err (imports r (literal "the root is already in use"))
    else ok tt

unfoldable pub check_bundle : Sources → Bundle → Result (Unit {0})
unfolding check_owner
check_bundle s b =
    try_for_each (λ r. check_owner (get r s.bundles) b r (keys s.modules ++ keys s.aliases))
      (roots b)

unfoldable pub insert_bundle : Bundle → Sources → Result Sources
unfolding check_bundle
insert_bundle b s = do
  check_bundle s b
  ok (record s { bundles = extend (map (λ r. (r, b)) (roots b)) s.bundles })

unfoldable pub alias : Sources → Str → Option Str
alias s name = get name s.aliases

unfoldable pub canonical : Sources → Str → Option Str
unfolding owner
canonical s name =
    if contains_key name s.modules || is_some (owner s name) then some name else alias s name

abbrev pub or_else {ℓ} : {A : Type ℓ} → Option A → Option A → Option A
or_else none b = b
or_else (some a) b = some a

abbrev pub as_source : Option Bundle → Option ModuleSource
as_source none = none
as_source (some b) = some (bundle b)

unfoldable pub find : Sources → Str → Option ModuleSource
unfolding owner
find s name = or_else (get name s.modules) (as_source (owner s name))
