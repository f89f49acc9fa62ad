-- ===== src/Bundle.antt =====
-- crates/guestjs-core/src/bundle/mod.rs: a bundle of modules and data files, and its builder.
-- The transpiler (the oxc crates behind bundle/transpiler.rs) is a parameter of the builder.
pub mod Name
pub mod Path
pub mod Utf8
pub mod Builder
pub mod Roots
use guestjs.Prelude.{
  ℕ, ◌+◌, ◌%◌, ◌^◌, Bool, true, false, ◌==◌, Option, none, some, List, [], ◌∷◌, map, is_some,
  if◌then◌else◌,
}
use guestjs.Text.{Str, codes, is_empty}
use guestjs.Errors.{Error, Message, Result, ok, err, ok_or, literal, format, ◌>>=◌}
use guestjs.Dict.{Dict, get, contains_key, insert, keys, collect}
use guestjs.Bundle.Name.{root, from_path}
use guestjs.Bundle.Path.{bundle_path, module_name}
use guestjs.Bundle.Utf8.{from_utf8}

-- a byte string
abbrev pub Bytes : Type 0
Bytes = List ℕ

-- `Bundle` and its shared `BundleState`
pub record Bundle : Type 0 where
  pub id : ℕ
  pub modules : Dict Str
  pub files : Dict Bytes

-- `BundleId::next`: the id that is handed out and the counter that is left. `none` is the panic of
-- `NonZeroU64::new` on 0, which `fetch_add` reaches when the counter has wrapped.
unfoldable pub next_id : ℕ → Option (ℕ × ℕ)
next_id counter = if counter == 0 then none else some (counter, (counter + 1) % 2 ^ 64)

unfoldable pub names : Bundle → List Str
unfolding keys
names b = keys b.modules

unfoldable pub contains : Bundle → Str → Bool
unfolding contains_key
contains b name = contains_key name b.modules

unfoldable pub module_source : Bundle → Str → Option Str
unfolding get
module_source b name = get name b.modules

unfoldable pub data_file : Bundle → Str → Option Bytes
unfolding get
data_file b path = get path b.files

unfoldable pub roots : Bundle → List Str
unfolding names root collect
roots b = keys (collect (map root (names b)))

single : List Str → Option Str
single (r ∷ []) = some r
single _ = none

-- `Bundle::root`
unfoldable pub bundle_root : Bundle → Option Str
unfolding roots single
bundle_root b = single (roots b)

pub record BundleBuilder : Type 0 where
  pub modules : Dict Str
  pub files : Dict Bytes
  pub error : Option Error

unfoldable pub new_builder : BundleBuilder
new_builder = record { modules = []; files = []; error = none }
