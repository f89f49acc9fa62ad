-- ===== src/Bundle/Path/Laws.antt =====
-- Which texts are bundle paths.
use guestjs.Prelude.{◌≡◌, refl, ◌↔◌, Bool, true, List, ◌∷◌, arith, all, if◌then◌else◌}
use guestjs.Text.{Str, split, join, slash}
use guestjs.Text.Split.{IsCut, split-join}
use guestjs.Errors.{Error, ok, err}
use guestjs.Bundle.Path.{is_named, bundle_path}

of_ok : {a : Str} (e : Error) (b : Bool) → (if b then ok a else err e) ≡ ok a → b ≡ true
of_ok e b h = ground arith

-- Segments joined by slashes are a bundle path exactly when each is named and holds no slash.
pub bundle_path-join :
    (p : Str) (ps : List Str)
    → IsCut slash (p ∷ ps)
    → (bundle_path (join slash (p ∷ ps)) ≡ ok (join slash (p ∷ ps)))
      ↔ (all is_named (p ∷ ps) ≡ true)
unfolding bundle_path
bundle_path-join p ps c =
    rw (split-join slash p ps c) (λ h. of_ok _ (all is_named (p ∷ ps)) h, λ h. rw h refl)

-- An accepted path is the text that was given, and all its segments are named.
pub bundle_path_sound :
    (path p : Str) → bundle_path path ≡ ok p → (p ≡ path) × (all is_named (split slash path) ≡ true)
unfolding bundle_path
bundle_path_sound path p h = ground arith
