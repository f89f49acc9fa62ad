-- ===== src/Tests/Resolutions.antt =====
-- Runs of crates/guestjs-core/src/imports/resolver.rs.
use guestjs.Prelude.{◌≡◌, refl, ◌↔◌, ◌+◌, true, false, List, all, length}
use guestjs.Text.{Str, codes, slash, split, join, is_empty, str_eq}
use guestjs.Errors.{ok}
use guestjs.Imports.Resolver.{resolve, is_relative, directory, without_extension}
use guestjs.Imports.Resolver.Walk.{is_plain, ups, plains, Stays}
use guestjs.Imports.Resolver.Depth.{no_gap}
use guestjs.Imports.Resolver.Laws.{resolve_relative_iff, resolve_confined}

abbrev referrer : Str
referrer = codes "plugin/lib/main"

resolve_relative_iff_example :
    ((name : Str) × (resolve referrer (codes "../util.js") ≡ ok name)) ↔ (
      (is_empty referrer ≡ false)
      × (no_gap (split slash (codes "../util.js")) ≡ true)
      × Stays (length (directory referrer)) (split slash (codes "../util.js")))
unfolding is_relative
resolve_relative_iff_example = resolve_relative_iff referrer (codes "../util.js") refl

resolve_confined_example :
    (path : List Str) × (codes "plugin/util" ≡ without_extension (join slash path))
    × (all is_plain path ≡ true)
    × (length path + ups (split slash (codes "../util.js"))
        ≡ length (directory referrer) + plains (split slash (codes "../util.js")))
unfolding resolve directory str_eq guestjs.Imports.Resolver.join_path guestjs.Imports.Resolver.walk
    guestjs.Imports.Resolver.step without_extension join
resolve_confined_example =
    resolve_confined referrer (codes "../util.js") (codes "plugin/util") refl refl refl
