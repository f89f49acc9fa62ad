-- ===== src/Tests/Runtimes.antt =====
-- Runs of crates/guestjs-core/src/runtime.rs: two guests, of which the first is dropped.
use guestjs.Prelude.{ℕ, ◌≡◌, refl, ◌↔◌, [], ◌∷◌, true, some, arith, ◌==◌}
use guestjs.Runtime.{Runtime, new_runtime, create, clone, release, find_guest, interrupts, update}
use guestjs.Runtime.Reachable.{
  Reachable, start, created_guest, cloned, released, IsLive, IsValid, Reachable-IsValid,
}
use guestjs.Runtime.Guests.{find_guest_iff, interrupts_iff}

abbrev one_guest : Runtime
one_guest = record {
  registry = (40, 1) ∷ [];
  next_id = 2;
  handles = update 1 1 (λ g. 0);
  context = update 1 40 (λ g. 0);
}

one_guest-Reachable : Reachable one_guest
unfolding create new_runtime
one_guest-Reachable = created_guest start 40 (λ g live. absurd (omega (arith, live))) refl

abbrev dropped : Runtime
dropped = release 1 (clone 1 one_guest)

dropped-Reachable : Reachable dropped
unfolding clone
dropped-Reachable = released (cloned one_guest-Reachable 1 (omega arith)) 1 (omega arith)

Reachable-IsValid_example : IsValid dropped
Reachable-IsValid_example = Reachable-IsValid dropped-Reachable

find_guest_iff_example :
    (find_guest 40 dropped ≡ some 1) ↔ (IsLive dropped 1 × (dropped.context 1 ≡ 40))
find_guest_iff_example = find_guest_iff 40 1 dropped-Reachable

interrupts_iff_example :
    (interrupts (λ g. g == 1) dropped ≡ true) ↔ ((g : ℕ) × IsLive dropped g × ((g == 1) ≡ true))
interrupts_iff_example = interrupts_iff (λ g. g == 1) dropped-Reachable
