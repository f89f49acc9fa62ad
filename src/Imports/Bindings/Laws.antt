-- ===== src/Imports/Bindings/Laws.antt =====
-- What a located name is.
use guestjs.Prelude.{
  ◌≡◌, ◌↔◌, refl, sym, ap, ◌∙◌, ◌⊎◌, inl, inr, Bool, true, false, ◌||◌, none, some, arith, is_some,
  or_eq_false, Option-cases,
}
use guestjs.Text.{Str}
use guestjs.Errors.{ok, ok_or, ok_or_sound, >>=-eq-ok}
use guestjs.Catalog.Sources.{or_else}
use guestjs.Catalog.Sources.Validity.{IsValid}
use guestjs.Catalog.Sources.Growth.{canonical-find}
use guestjs.Imports.Bindings.{
  GuestBindings, source, is_denied, name_of, index_of, candidate, admit, locate,
}

pub record IsValidBindings (g : GuestBindings) : Type 0 where
  pub mounted : IsValid g.mounted
  pub guest : IsValid g.guest.sources
  pub runtime : IsValid g.runtime.sources

name_of-source :
    (g : GuestBindings) (n m : Str)
    → IsValidBindings g
    → name_of g n ≡ some m
    → is_some (source g m) ≡ true
unfolding source
name_of-source g n m v h = ground (
  arith,
  canonical-find g.mounted n m v.mounted,
  canonical-find g.guest.sources n m v.guest,
  canonical-find g.runtime.sources n m v.runtime,
)

pub candidate-cases :
    (g : GuestBindings) (name located : Str)
    → candidate g name ≡ some located
    → (name_of g name ≡ some located)
      ⊎ ((name_of g name ≡ none) × (name_of g (index_of name) ≡ some located))
unfolding candidate
candidate-cases g name located h = elim (Option-cases (name_of g name)) [
  | inl e ↦ inr (e, sym (ap (λ o. or_else o (name_of g (index_of name))) e) ∙ h)
  | inr (m, e) ↦ inl (e ∙ (sym (ap (λ o. or_else o (name_of g (index_of name))) e) ∙ h))
]

admit_sound :
    (b : Bool) (name located : Str) {l : Str}
    → admit b name located ≡ ok l
    → (b ≡ false) × (located ≡ l)
unfolding admit
admit_sound true name located h = cc
admit_sound false name located h = (refl, ground arith)

locate_forward :
    (g : GuestBindings) (name located : Str)
    → locate g name ≡ ok located
    → (candidate g name ≡ some located) × (is_denied g name ≡ false) × (is_denied g located ≡ false)
unfolding locate
locate_forward g name located h =
    let (l, c, a) =
      >>=-eq-ok (ok_or (candidate g name) _) (λ l. admit (is_denied g name || is_denied g l) name l)
        h in
    let (allowed, same) = admit_sound (is_denied g name || is_denied g l) name l a in
    let (n, d) = or_eq_false (is_denied g name) (is_denied g l) allowed in
    (ok_or_sound (candidate g name) _ l c ∙ ap some same, n, sym (ap (is_denied g) same) ∙ d)

locate_backward :
    (g : GuestBindings) (name located : Str)
    → candidate g name ≡ some located
    → is_denied g name ≡ false
    → is_denied g located ≡ false
    → locate g name ≡ ok located
unfolding locate
locate_backward g name located c n l = rw c (rw (n, l) refl)

-- `locate` returns a name exactly when that is the candidate and no denial stands against the name
-- that was asked for or the one that was found.
pub locate_iff :
    (g : GuestBindings) (name located : Str)
    → (locate g name ≡ ok located) ↔ (
        (candidate g name ≡ some located)
        × (is_denied g name ≡ false)
        × (is_denied g located ≡ false))
locate_iff g name located =
    (locate_forward g name located, λ (c, n, l). locate_backward g name located c n l)

-- In valid bindings, a name that is located is bound under the name that was asked for, or else as
-- its index module; it has a source to load, and neither name is denied to the guest.
pub locate_sound :
    (g : GuestBindings) (name located : Str)
    → IsValidBindings g
    → locate g name ≡ ok located
    → ((name_of g name ≡ some located)
        ⊎ ((name_of g name ≡ none) × (name_of g (index_of name) ≡ some located)))
      × (is_some (source g located) ≡ true)
      × (is_denied g name ≡ false)
      × (is_denied g located ≡ false)
locate_sound g name located v h =
    let (c, n, l) = (locate_iff g name located).0 h in
    let which = candidate-cases g name located c in
    (
      which,
      (elim which [
        | inl e ↦ name_of-source g name located v e
        | inr (_, e) ↦ name_of-source g (index_of name) located v e
      ]),
      n,
      l,
    )
