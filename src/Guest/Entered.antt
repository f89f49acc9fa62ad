-- ===== src/Guest/Entered.antt =====
-- What an entry of a guest (crates/guestjs-core/src/guest/mod.rs) that gives a result has done.
use guestjs.Prelude.{ℕ, ◌≡◌, refl, sym, ap, ◌∙◌, false, Option, arith, inl, inr, Bool-cases}
use guestjs.Errors.{Error, Result, ok, err, interrupted, Answer-cases}
use guestjs.Guest.{
  GuestActivity, begin, finish, Machine, Action, with_activity, explain, activity_due_error,
  run_active, activate_from, activate, enter,
}
use guestjs.Guest.Balance.{Begun, begin_sound, enter_open, enter_closed}

-- An error is explained as an error.
explain_err :
    {R : Type 0} (due : Option Error) (e : Error)
    → (x : Error) × (explain {R = R} due (err e) ≡ err x)
unfolding explain
explain_err due interrupted = (_, refl)
explain_err due e = (e, refl)

-- The closure has run in the open guest, one level deeper, and given the result; then the entry was
-- finished.
pub record Entered {H R : Type 0} (f : ℕ → Action H R) (m : Machine H) (r : R) (after : Machine H)
    : Type 0 where
  pub is_open : m.guest.closed ≡ false
  pub activity : GuestActivity
  pub begun : Begun (m.guest.activity) activity
  pub left : Machine H
  pub ran : f (m.guest.context_id) (with_activity activity m) ≡ (ok r, left)
  pub finished : after ≡ with_activity (finish (left.guest.activity)) left

module _ {H R : Type 0} (checked_add : ℕ → ℕ → Option ℕ) where
  run_active-ok :
      (f : Action H R) (m after : Machine H) (r : R)
      → run_active checked_add f m ≡ (ok r, after)
      → (left : Machine H) × (f m ≡ (ok r, left))
        × (after ≡ with_activity (finish (left.guest.activity)) left)
  unfolding run_active explain
  run_active-ok f m after r h = elim (Answer-cases (f m)) [
    | inl (x, u, e) ↦ (
      u,
      e ∙ ap (λ y. (ok y, u)) (ground (arith, e, h)),
      ap (λ y. y.1) (sym h) ∙ ap (λ y. with_activity (finish (y.1.guest.activity)) (y.1)) e,
    )
    | inr (x, u, e) ↦
        let (y, explained) =
          explain_err {R = R} (activity_due_error (u.guest.activity) (u.world)) x in
        absurd (ground (arith, e, h, explained))
  ]

  from-ok :
      (f : Action H R) (m after : Machine H) (r : R) (begun : Result GuestActivity)
      → activate_from checked_add f m begun ≡ (ok r, after)
      → (b : GuestActivity) × (begun ≡ ok b)
        × (run_active checked_add f (with_activity b m) ≡ (ok r, after))
  unfolding activate_from
  from-ok f m after r (ok b) h = (b, refl, h)
  from-ok f m after r (err e) h = absurd (ground arith)

  pub enter-Entered :
      (f : ℕ → Action H R) (m after : Machine H) (r : R)
      → enter checked_add f m ≡ (ok r, after)
      → Entered f m r after
  unfolding activate
  enter-Entered f m after r h = elim (Bool-cases (m.guest.closed)) [
    | inl e ↦ absurd (ground (arith, enter_closed checked_add f m e, h))
    | inr open_guest ↦
        let (b, begun, run) =
          from-ok (f (m.guest.context_id)) m after r
            (begin checked_add (m.world) (m.guest.activity))
            (sym (enter_open checked_add f m open_guest) ∙ h) in
        let (left, ran, finished) =
          run_active-ok (f (m.guest.context_id)) (with_activity b m) after r run in
        record {
          is_open = open_guest;
          activity = b;
          begun = begin_sound checked_add (m.world) (m.guest.activity) b begun;
          left = left;
          ran = ran;
          finished = finished;
        }
  ]
