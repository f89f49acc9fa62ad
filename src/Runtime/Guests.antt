-- ===== src/Runtime/Guests.antt =====
-- What a runtime (crates/guestjs-core/src/runtime.rs) tells of its guests: the guest of a context,
-- and whether the engine is to interrupt what runs.
use guestjs.Prelude.{
  ℕ, ◌≡◌, sym, ap, ◌∙◌, ◌↔◌, inl, inr, Bool, true, Option, none, some, [], ◌∷◌, ◌==◌, arith,
  Bool-cases, any, ltb,
}
use guestjs.Runtime.{
  Registry, Runtime, lookup, upgrade, upgrade_found, find_guest, upgrade_all, interrupts,
}
use guestjs.Runtime.Reachable.{Reachable, IsLive, Reachable-IsValid}

found_live :
    (r : Runtime) (o : Option ℕ) (g : ℕ) → upgrade_found r o ≡ some g → (o ≡ some g) × IsLive r g
unfolding upgrade_found upgrade
found_live r none g h = cc
found_live r (some k) g h = (ground arith, ground arith)

live_found : (r : Runtime) (g : ℕ) → IsLive r g → upgrade_found r (some g) ≡ some g
unfolding upgrade_found upgrade
live_found r g l = ground (arith, l)

-- The guest that `find_guest` gives for a context is the live guest of that context, if it has one.
pub find_guest_iff :
    {r : Runtime} (context g : ℕ)
    → Reachable r
    → (find_guest context r ≡ some g) ↔ (IsLive r g × (r.context g ≡ context))
unfolding find_guest
find_guest_iff {r} context g reach =
    let v = Reachable-IsValid reach in
    (
      λ h.
          let (known, live) = found_live r (lookup context r.registry) g h in
          (live, (v.owner context g known).0),
      λ h.
          ap (λ c. upgrade_found r (lookup c r.registry)) (sym (h.1))
          ∙ (ap (upgrade_found r) (v.registered g (h.0)) ∙ live_found r g (h.0)),
    )

module _ (due : ℕ → Bool) (r : Runtime) where
  any_live :
      (registry : Registry)
      → any due (upgrade_all r registry) ≡ true
      → (g : ℕ) × IsLive r g × (due g ≡ true)
  unfolding upgrade_all upgrade
  any_live [] h = cc
  any_live ((key, guest) ∷ rest) h = elim (Bool-cases (ltb 0 (r.handles guest))) [
    | inl live ↦ elim (Bool-cases (due guest)) [
      | inl is ↦ (guest, ground arith, is)
      | inr is_not ↦ any_live rest (ground arith)
    ]
    | inr dead ↦ any_live rest (ground arith)
  ]

  live_any :
      (registry : Registry) (c g : ℕ)
      → lookup c registry ≡ some g
      → IsLive r g
      → due g ≡ true
      → any due (upgrade_all r registry) ≡ true
  unfolding upgrade_all upgrade lookup
  live_any [] c g h l d = cc
  live_any ((key, guest) ∷ rest) c g h l d = elim (Bool-cases (key == c)) [
    | inl e ↦ let same : guest ≡ g = ground arith in ground (arith, l, d, ap due same)
    | inr n ↦ ground (arith, live_any rest c g (ground arith) l d)
  ]

-- The engine is told to interrupt exactly when a live guest of the runtime is due.
pub interrupts_iff :
    (due : ℕ → Bool) {r : Runtime}
    → Reachable r
    → (interrupts due r ≡ true) ↔ ((g : ℕ) × IsLive r g × (due g ≡ true))
unfolding interrupts
interrupts_iff due {r} reach = (
  λ h. any_live due r r.registry h,
  λ (g, l, d).
      live_any due r r.registry (r.context g) g ((Reachable-IsValid reach).registered g l) l d,
)
