-- ===== src/Futures.antt =====
-- `std::task::Poll`, and the futures of handles. A future is polled beside the state of the guest,
-- on which the poll may act; the future that is left replaces the one that was polled.
use guestjs.Prelude.{◌≡◌}
use guestjs.Errors.{Result}

pub data Poll (A : Type 0) : Type 0 where
  pending : Poll A
  ready : A → Poll A

-- what polls a future of type `F` beside a state of type `S`
abbrev pub Polling : Type 0 → Type 0 → Type 0 → Type 0
Polling S F A = F → S → Poll (Result A) × (F × S)

-- A future settles if one of finitely many polls, one after the other, gives its result.
pub data Settles {S F A : Type 0} (poll : Polling S F A) : F → S → Type 0 where
  settles_now :
      {f g : F} {s t : S} (result : Result A) → poll f s ≡ (ready result, (g, t)) → Settles poll f s
  settles_later :
      {f g : F} {s t : S} → poll f s ≡ (pending, (g, t)) → Settles poll g t → Settles poll f s
