-- ===== src/Bundle/Path.antt =====
-- `BundlePath` of crates/guestjs-core/src/bundle/mod.rs.
pub mod Laws
use guestjs.Prelude.{Bool, true, false, not, ◌&&◌, ◌||◌, Option, List, [], ◌∷◌, all, if◌then◌else◌}
use guestjs.Text.{Str, codes, str_eq, split, contains, is_empty, slash, backslash}
use guestjs.Errors.{Result, ok, err, bundle, format}
use guestjs.Bundle.Name.{from_path}

-- the test of one segment: none of "", "." and "..", and no backslash
unfoldable pub is_named : Str → Bool
unfolding str_eq contains
is_named segment =
    not (is_empty segment || (str_eq segment (codes ".") || str_eq segment (codes "..")))
    && not (contains backslash segment)

-- `BundlePath::new`; the path that it holds is the text that it was given
unfoldable pub bundle_path : Str → Result Str
unfolding is_named split
bundle_path path =
    if all is_named (split slash path)
    then ok path
    else err (bundle (format "{path:?} is not a relative path of named segments" (path ∷ [])))

unfoldable pub module_name : Str → Option Str
unfolding from_path
module_name path = from_path path
