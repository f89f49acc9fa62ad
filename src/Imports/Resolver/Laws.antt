-- ===== src/Imports/Resolver/Laws.antt =====
-- What the resolver accepts, and the names that it returns.
use guestjs.Prelude.{◌+◌, ◌≡◌, refl, sym, ◌∙◌, ◌↔◌, true, false, List, [], ◌∷◌, arith, all, length}
use guestjs.Text.{Str, is_empty, split, join, slash}
use guestjs.Errors.{ok, >>=-eq-ok}
use guestjs.Imports.Resolver.{walk, directory, join_path, without_extension, is_relative, resolve}
use guestjs.Imports.Resolver.Walk.{is_plain, ups, plains, Stays}
use guestjs.Imports.Resolver.Depth.{no_gap, walk_sound, walk_complete}

-- A relative specifier starts with "./" or "../", so it is neither empty nor absolute.
resolve_relative :
    (referrer specifier : Str)
    → is_relative specifier ≡ true
    → resolve referrer specifier ≡ join_path referrer specifier
unfolding resolve
resolve_relative referrer [] h = cc
resolve_relative referrer (c ∷ specifier) h = ground arith

join_path_sound :
    (referrer specifier : Str) {name : Str}
    → join_path referrer specifier ≡ ok name
    → (is_empty referrer ≡ false)
      × ((out : List Str) × (walk specifier (directory referrer) (split slash specifier) ≡ ok out)
          × (name ≡ without_extension (join slash out)))
unfolding join_path
join_path_sound (c ∷ referrer) specifier h =
    let (out, w, e) =
      >>=-eq-ok (walk specifier (directory (c ∷ referrer)) (split slash specifier)) _ h in
    (refl, (out, w, ground arith))
join_path_sound [] specifier h = cc

join_path_complete :
    (referrer specifier : Str) (out : List Str)
    → is_empty referrer ≡ false
    → walk specifier (directory referrer) (split slash specifier) ≡ ok out
    → join_path referrer specifier ≡ ok (without_extension (join slash out))
unfolding join_path
join_path_complete referrer specifier out h w = rw (h, w) refl

-- A relative specifier resolves exactly when it has a referrer, holds no empty segment, and no
-- prefix of its segments climbs above the root of the referrer's tree.
pub resolve_relative_iff :
    (referrer specifier : Str)
    → is_relative specifier ≡ true
    → ((name : Str) × (resolve referrer specifier ≡ ok name)) ↔ (
        (is_empty referrer ≡ false)
        × (no_gap (split slash specifier) ≡ true)
        × Stays (length (directory referrer)) (split slash specifier))
resolve_relative_iff referrer specifier h = (
  λ r.
      let (full, (out, w, _)) =
        join_path_sound referrer specifier (sym (resolve_relative referrer specifier h) ∙ r.1) in
      let walked = walk_sound specifier (directory referrer) (split slash specifier) w in
      (full, walked.full, walked.stays),
  λ (full, gaps, stays).
      let (out, w) =
        walk_complete specifier (directory referrer) (split slash specifier) gaps stays in
      (
        without_extension (join slash out),
        resolve_relative referrer specifier h ∙ join_path_complete referrer specifier out full w,
      ),
)

-- The name of a relative specifier stands for a path in the referrer's tree: if the directory of
-- the referrer has plain segments only, then the path has plain segments only, as many as the
-- directory's and the specifier's descents less its climbs.
pub resolve_confined :
    (referrer specifier name : Str)
    → is_relative specifier ≡ true
    → all is_plain (directory referrer) ≡ true
    → resolve referrer specifier ≡ ok name
    → (path : List Str) × (name ≡ without_extension (join slash path))
      × (all is_plain path ≡ true)
      × (length path + ups (split slash specifier)
          ≡ length (directory referrer) + plains (split slash specifier))
resolve_confined referrer specifier name h plain r =
    let (_, (out, w, e)) =
      join_path_sound referrer specifier (sym (resolve_relative referrer specifier h) ∙ r) in
    let walked = walk_sound specifier (directory referrer) (split slash specifier) w in
    (out, e, walked.plain plain, walked.depth)
