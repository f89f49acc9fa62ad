-- ===== src/Bundle/Name.antt =====
-- crates/guestjs-core/src/bundle/name.rs: module names.
pub mod Laws
use guestjs.Prelude.{
  Bool, true, false, not, ◌&&◌, ◌||◌, Option, none, some, List, [], ◌∷◌, is_some, if◌then◌else◌,
}
use guestjs.Text.{
  Str, codes, split, strip_prefix, strip_suffix, starts_with, ends_with, is_empty, slash,
}

abbrev pub script_extensions : List Str
script_extensions = codes ".js" ∷ codes ".mjs" ∷ codes ".ts" ∷ codes ".mts" ∷ []

-- `iter().find_map(|extension| path.strip_suffix(extension))`
unfoldable pub strip_extension : List Str → Str → Option Str
unfolding strip_suffix
strip_extension [] path = none
strip_extension (extension ∷ rest) path = elim (strip_suffix extension path) [
  | some name ↦ some name
  | none ↦ strip_extension rest path
]

-- `filter` of `from_path`
abbrev pub named : Str → Bool
named name = not (is_empty name) && not (ends_with slash name)

abbrev pub filter_named : Option Str → Option Str
filter_named none = none
filter_named (some name) = if named name then some name else none

unfoldable pub from_path : Str → Option Str
unfolding strip_extension ends_with
from_path path = filter_named (strip_extension script_extensions path)

abbrev head_or : Str → List Str → Str
head_or name [] = name
head_or name (p ∷ ps) = p

unfoldable pub root : Str → Str
unfolding split
root name = head_or name (split slash name)

within_rest : Option Str → Bool
within_rest none = false
within_rest (some rest) = is_empty rest || starts_with (codes "/") rest

-- `ModuleName::new(name).is_within(prefix)`
unfoldable pub is_within : Str → Str → Bool
unfolding strip_prefix within_rest starts_with
is_within name prefix = within_rest (strip_prefix prefix name)
