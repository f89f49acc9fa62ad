-- ===== src/Bundle/Name/Laws.antt =====
-- What a module name is, whose root it has, and which names it is within.
use guestjs.Prelude.{
  ◌≡◌, refl, sym, ap, ◌∙◌, ◌↔◌, ◌⊎◌, inl, inr, true, false, Option, none, some, List, [], ◌∷◌, ◌++◌,
  append-nil, append_assoc, arith, Option-cases,
}
use guestjs.Text.{
  Str, str_eq, codes, split, strip_prefix, strip_suffix, starts_with, slash, contains, join,
}
use guestjs.Text.Affix.{
  strip_prefix-append, append_of_strip_prefix, strip_suffix-append, append_of_strip_suffix,
  strip_suffix-other,
}
use guestjs.Text.Split.{split-no_sep, split-append, IsCut, split-IsCut, split_ne, join-split}
use guestjs.Text.Order.{str_eq_refl, eq_of_str_eq}
use guestjs.Dict.{elem}
use guestjs.Bundle.Name.{
  script_extensions, strip_extension, named, filter_named, from_path, head_or, root, within_rest,
  is_within,
}

within_rest-cases :
    (r : Str) → within_rest (some r) ≡ true → (r ≡ []) ⊎ ((t : Str) × (r ≡ slash ∷ t))
unfolding within_rest starts_with strip_prefix
within_rest-cases [] h = inl refl
within_rest-cases (x ∷ t) h = inr (t, ground arith)

forward :
    (name prefix : Str)
    → is_within name prefix ≡ true
    → (name ≡ prefix) ⊎ ((t : Str) × (name ≡ prefix ++ (slash ∷ t)))
unfolding is_within
forward name prefix h = elim (Option-cases (strip_prefix prefix name)) [
  | inl e ↦ cc
  | inr (r, e) ↦ elim (within_rest-cases r (rw e at h)) [
    | inl k ↦ inl (append_of_strip_prefix prefix name r e ∙ (rw k (append-nil prefix)))
    | inr (t, k) ↦ inr (t, (rw (← k) (append_of_strip_prefix prefix name r e)))
  ]
]

pub is_within_refl : (name : Str) → is_within name name ≡ true
unfolding is_within
is_within_refl name = ground (arith, strip_prefix-append name [], append-nil name)

pub is_within-append : (prefix t : Str) → is_within (prefix ++ (slash ∷ t)) prefix ≡ true
unfolding is_within
is_within-append prefix t = ground (arith, strip_prefix-append prefix (slash ∷ t))

-- A name is within a prefix exactly when it is the prefix or continues it behind a slash.
pub is_within_iff :
    (name prefix : Str)
    → (is_within name prefix ≡ true)
      ↔ ((name ≡ prefix) ⊎ ((t : Str) × (name ≡ prefix ++ (slash ∷ t))))
is_within_iff name prefix = (
  forward name prefix,
  λ h. elim h [
    | inl e ↦ rw e (is_within_refl prefix)
    | inr (t, e) ↦ rw e (is_within-append prefix t)
  ],
)

-- Being within is transitive: what is within a name is within all its ancestors.
pub is_within_trans :
    (a b c : Str) → is_within a b ≡ true → is_within b c ≡ true → is_within a c ≡ true
is_within_trans a b c h k = elim (forward a b h) [
  | inl e ↦ rw e k
  | inr (t, e) ↦ elim (forward b c k) [
    | inl f ↦ rw (← f) h
    | inr (u, f) ↦
        rw (e, f, append_assoc c (slash ∷ u) (slash ∷ t)) (is_within-append c (u ++ (slash ∷ t)))
  ]
]

pub root_of_segment : (s : Str) → contains slash s ≡ false → root s ≡ s
unfolding root
root_of_segment s h = rw (split-no_sep slash s h)

pub root-append : (s t : Str) → contains slash s ≡ false → root (s ++ (slash ∷ t)) ≡ s
unfolding root
root-append s t h = rw (split-append slash s t h)

within_head :
    (name : Str) (ps : List Str) → split slash name ≡ ps → is_within name (head_or name ps) ≡ true
unfolding join
within_head name [] e = is_within_refl name
within_head name (p ∷ []) e =
    let same : name ≡ p = sym (join-split slash name) ∙ ap (join slash) e in
    rw same (is_within_refl p)
within_head name (p ∷ q ∷ ps) e =
    let same : name ≡ p ++ (slash ∷ join slash (q ∷ ps)) =
      sym (join-split slash name) ∙ ap (join slash) e in
    rw same (is_within-append p (join slash (q ∷ ps)))

pub within_root : (name : Str) → is_within name (root name) ≡ true
unfolding root
within_root name = within_head name (split slash name) refl

head-no_slash :
    (name : Str) (ps : List Str)
    → IsCut slash ps
    → split slash name ≡ ps
    → contains slash (head_or name ps) ≡ false
head-no_slash name [] c e = absurd (split_ne slash name e)
head-no_slash name (p ∷ ps) c e = ground arith

pub root-no_slash : (name : Str) → contains slash (root name) ≡ false
unfolding root
root-no_slash name = head-no_slash name (split slash name) (split-IsCut slash name) refl

-- Within a single segment are exactly the names that have it as their root.
pub is_within-root :
    (name r : Str) → contains slash r ≡ false → (is_within name r ≡ true) ↔ (root name ≡ r)
is_within-root name r h = (
  λ k. elim (forward name r k) [
    | inl e ↦ rw e (root_of_segment r h)
    | inr (t, e) ↦ rw e (root-append r t h)
  ],
  λ e. rw (← e) (within_root name),
)

-- ------------------------------------------------------------------ script paths

strip_extension_sound :
    (es : List Str) (path name : Str)
    → strip_extension es path ≡ some name
    → (e : Str) × (elem e es ≡ true) × (path ≡ name ++ e)
unfolding strip_extension elem
strip_extension_sound [] path name h = cc
strip_extension_sound (e ∷ es) path name h = elim (Option-cases (strip_suffix e path)) [
  | inl no_suffix ↦
      let (f, m, p) = strip_extension_sound es path name (ground arith) in (f, ground arith, p)
  | inr (r, suffix) ↦
      (e, ground (arith, str_eq_refl e), append_of_strip_suffix e path name (ground arith))
]

filter_named_sound :
    (o : Option Str) (name : Str)
    → filter_named o ≡ some name
    → (o ≡ some name) × (named name ≡ true)
filter_named_sound none name h = cc
filter_named_sound (some s) name h = ground arith

-- A path that names a module is the name with one of the script extensions behind it, and the
-- name is not empty and does not end in a slash.
pub from_path_sound :
    (path name : Str)
    → from_path path ≡ some name
    → (e : Str) × (elem e script_extensions ≡ true) × (path ≡ name ++ e) × (named name ≡ true)
unfolding from_path
from_path_sound path name h =
    let (o, n) = filter_named_sound (strip_extension script_extensions path) name h in
    let (e, m, p) = strip_extension_sound script_extensions path name o in (e, m, p, n)

strip_js : (name : Str) → strip_extension script_extensions (name ++ codes ".js") ≡ some name
unfolding strip_extension str_eq
strip_js name = ground (arith, strip_suffix-append (codes ".js") name)

strip_mjs : (name : Str) → strip_extension script_extensions (name ++ codes ".mjs") ≡ some name
unfolding strip_extension str_eq
strip_mjs name = ground (
  arith,
  strip_suffix-other (codes ".js") name (codes ".mjs") refl refl,
  strip_suffix-append (codes ".mjs") name,
)

strip_ts : (name : Str) → strip_extension script_extensions (name ++ codes ".ts") ≡ some name
unfolding strip_extension str_eq
strip_ts name = ground (
  arith,
  strip_suffix-other (codes ".js") name (codes ".ts") refl refl,
  strip_suffix-other (codes ".mjs") name (codes ".ts") refl refl,
  strip_suffix-append (codes ".ts") name,
)

strip_mts : (name : Str) → strip_extension script_extensions (name ++ codes ".mts") ≡ some name
unfolding strip_extension str_eq
strip_mts name = ground (
  arith,
  strip_suffix-other (codes ".js") name (codes ".mts") refl refl,
  strip_suffix-other (codes ".mjs") name (codes ".mts") refl refl,
  strip_suffix-other (codes ".ts") name (codes ".mts") refl refl,
  strip_suffix-append (codes ".mts") name,
)

-- The other way round, each extension behind such a name gives the name back.
pub from_path-append :
    (name e : Str)
    → named name ≡ true
    → elem e script_extensions ≡ true
    → from_path (name ++ e) ≡ some name
unfolding from_path elem str_eq
from_path-append name e n m = ground (
  arith,
  eq_of_str_eq (codes ".js") e,
  eq_of_str_eq (codes ".mjs") e,
  eq_of_str_eq (codes ".ts") e,
  eq_of_str_eq (codes ".mts") e,
  strip_js name,
  strip_mjs name,
  strip_ts name,
  strip_mts name,
)
