-- ===== src/Imports/Bindings/Located.antt =====
-- What a guest can import of a bundle that it has mounted (`GuestBindings::mount` and `locate` of
-- crates/guestjs-core/src/imports/bindings.rs).
use guestjs.Prelude.{◌≡◌, sym, ap, ◌∙◌, ◌⊎◌, inl, inr, true, false, none, some, arith, subst}
use guestjs.Text.{Str}
use guestjs.Errors.{ok}
use guestjs.Bundle.{Bundle, contains}
use guestjs.Bundle.Roots.{roots_complete}
use guestjs.Imports.Bindings.{GuestBindings, is_denied, name_of, index_of, candidate, locate, mount}
use guestjs.Imports.Bindings.Laws.{IsValidBindings, locate_iff}
use guestjs.Imports.Bindings.Layers.{canonical_mounted}
use guestjs.Imports.Bindings.Mounting.{IsSharedIn, mount_sound}

name_of-mounted :
    (g : GuestBindings) (b : Bundle) {h : GuestBindings} (n : Str)
    → IsValidBindings g
    → IsSharedIn g b
    → mount g b ≡ ok h
    → contains b n ≡ true
    → name_of h n ≡ some n
name_of-mounted g b n v shared e inside =
    let m = mount_sound g b v shared e in
    subst (λ k. name_of k n ≡ some n) (sym m.result)
      (ground
        (arith, canonical_mounted g.mounted b m.mounted n (roots_complete b n inside), inside))

candidate-here : (h : GuestBindings) (n : Str) → name_of h n ≡ some n → candidate h n ≡ some n
unfolding candidate
candidate-here h n e = ground (arith, e)

candidate-index :
    (h : GuestBindings) (asked n : Str)
    → name_of h asked ≡ none
    → index_of asked ≡ n
    → name_of h n ≡ some n
    → candidate h asked ≡ some n
unfolding candidate
candidate-index h asked n missing same e =
    let there : name_of h (index_of asked) ≡ some n = ap (name_of h) same ∙ e in
    ground (arith, missing, there)

-- After a bundle was mounted on valid bindings, in which a bundle of its id is a clone of it, every
-- module of the bundle is located under its own name, even where the bundle or another layer has an
-- index module below that name; and an index module also under the name of its directory, if no layer
-- has that name itself. Neither the name that is asked for nor the module's is denied.
pub locate-mounted :
    (g : GuestBindings) (b : Bundle) {h : GuestBindings} (asked n : Str)
    → IsValidBindings g
    → IsSharedIn g b
    → mount g b ≡ ok h
    → contains b n ≡ true
    → (asked ≡ n) ⊎ ((name_of h asked ≡ none) × (index_of asked ≡ n))
    → is_denied h asked ≡ false
    → is_denied h n ≡ false
    → locate h asked ≡ ok n
locate-mounted g b {h} asked n v shared e inside (inl same) asked_ok n_ok =
    let here = name_of-mounted g b n v shared e inside in
    (locate_iff h asked n).1
      (subst (λ x. candidate h x ≡ some n) (sym same) (candidate-here h n here), asked_ok, n_ok)
locate-mounted g b {h} asked n v shared e inside (inr (missing, same)) asked_ok n_ok =
    let here = name_of-mounted g b n v shared e inside in
    (locate_iff h asked n).1 (candidate-index h asked n missing same here, asked_ok, n_ok)
