-- ===== src/Imports/Dispatch/Laws.antt =====
-- What the engine is told to load (crates/guestjs-core/src/imports/mod.rs).
use guestjs.Prelude.{◌≡◌, false, arith, Option-cases, inl, inr}
use guestjs.Text.{Str}
use guestjs.Errors.{ok, >>=-eq-ok}
use guestjs.Catalog.Sources.{ModuleSource}
use guestjs.Imports.Resolver.{resolve}
use guestjs.Imports.Bindings.{GuestBindings, locate, source, is_denied}
use guestjs.Imports.Bindings.Laws.{IsValidBindings, locate_sound}
use guestjs.Imports.Dispatch.{resolve_specifier, load_source}

-- In valid bindings, a name that `resolve` has given for a specifier can be loaded, and it is not
-- denied to the guest.
pub resolve-load :
    (g : GuestBindings) (referrer specifier name : Str)
    → IsValidBindings g
    → resolve_specifier g referrer specifier ≡ ok name
    → ((x : ModuleSource) × (load_source g name ≡ ok x)) × (is_denied g name ≡ false)
unfolding resolve_specifier load_source
resolve-load g referrer specifier name v h =
    let (asked, _, found) = >>=-eq-ok (resolve referrer specifier) (locate g) h in
    let (_, has_source, _, allowed) = locate_sound g asked name v found in
    elim (Option-cases (source g name)) [ inl e ↦ cc | inr (x, e) ↦ ((x, ground arith), allowed) ]
