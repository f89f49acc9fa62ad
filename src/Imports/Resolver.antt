-- ===== src/Imports/Resolver.antt =====
-- crates/guestjs-core/src/imports/resolver.rs.
pub mod Walk
pub mod Depth
pub mod Laws
use guestjs.Prelude.{
  Bool, true, false, ◌||◌, Option, none, some, List, [], ◌∷◌, push, pop, if◌then◌else◌,
}
use guestjs.Text.{Str, codes, str_eq, is_empty, split, join, rsplit_once, starts_with, slash}
use guestjs.Errors.{Error, Result, ok, err, ok_or, imports, literal, ◌>>=◌}
use guestjs.Bundle.Name.{from_path}

-- one segment of the `try_fold`
unfoldable pub step : Str → List Str → Str → Result (List Str)
unfolding str_eq
step specifier segments segment =
    if str_eq segment (codes ".")
    then ok segments
    else if str_eq segment (codes "..")
    then ok_or (pop segments)
        (imports specifier (literal "the specifier leaves the root of its module tree"))
    else if is_empty segment
    then err (imports specifier (literal "the specifier has an empty path segment"))
    else ok (push segments segment)

unfoldable pub walk : Str → List Str → List Str → Result (List Str)
walk specifier segments [] = ok segments
walk specifier segments (segment ∷ rest) = elim (step specifier segments segment) [
  | ok next ↦ walk specifier next rest
  | err e ↦ err e
]

directory_of : Option (Str × Str) → List Str
directory_of none = []
directory_of (some (directory, file)) = split slash directory

-- the segments of the referrer but the last
unfoldable pub directory : Str → List Str
unfolding directory_of rsplit_once split
directory referrer = directory_of (rsplit_once slash referrer)

or_same : Str → Option Str → Str
or_same joined none = joined
or_same joined (some name) = name

-- the name that a path declares, or else the path
unfoldable pub without_extension : Str → Str
unfolding from_path or_same
without_extension joined = or_same joined (from_path joined)

-- `Resolver::join`
unfoldable pub join_path : Str → Str → Result Str
join_path referrer specifier =
    if is_empty referrer
    then err (imports specifier (literal "a relative specifier needs a referring module"))
    else do
      segments ← walk specifier (directory referrer) (split slash specifier)
      ok (without_extension (join slash segments))

unfoldable pub is_relative : Str → Bool
unfolding starts_with
is_relative specifier = starts_with (codes "./") specifier || starts_with (codes "../") specifier

unfoldable pub resolve : Str → Str → Result Str
unfolding is_relative starts_with
resolve referrer specifier =
    if is_empty specifier
    then err (imports specifier (literal "an empty specifier names no module"))
    else if starts_with (codes "/") specifier
    then err (imports specifier (literal "absolute specifiers are not supported"))
    else if is_relative specifier
    then join_path referrer specifier
    else ok specifier
