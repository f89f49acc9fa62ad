-- ===== src/Guest/Entry.antt =====
-- Which entries of a guest (crates/guestjs-core/src/guest/mod.rs) are refused, and what an
-- interrupted run is reported as.
use guestjs.Prelude.{
  ℕ, ◌≡◌, refl, sym, ap, ◌∙◌, false, Option, none, some, ◌+◌, arith, inl, inr, ◌⊎◌, subst,
}
use guestjs.Errors.{Error, Result, err, interrupted, timeout, cancelled}
use guestjs.Policy.{World, ArmedPolicy, arm, due_error}
use guestjs.Policy.Laws.{due_error_named}
use guestjs.Guest.{
  GuestActivity, begin, begin_outermost, is_active, Machine, Action, with_activity, explain,
  unwrap_or, activity_due_error, armed_due_error, run_active, activate_from, activate, enter,
}
use guestjs.Guest.Balance.{IsValidActivity, IsBalanced, enter_open}

begin_idle :
    (checked_add : ℕ → ℕ → Option ℕ) (w : World) (a : GuestActivity)
    → a.depth ≡ 0
    → begin checked_add w a
      ≡ begin_outermost a (arm checked_add a.policy w) (due_error (arm checked_add a.policy w) w)
unfolding begin is_active
begin_idle checked_add w a idle = ground arith

explain_interrupted :
    {R : Type 0} (due : Option Error) (r : Result R)
    → ((e : Error) → due ≡ some e → (e ≡ timeout) ⊎ (e ≡ cancelled))
    → explain due r ≡ err interrupted
    → due ≡ none
unfolding explain unwrap_or
explain_interrupted none r named h = refl
explain_interrupted (some e) r named h = elim (named e refl) [
  | inl t ↦ ground arith
  | inr c ↦ ground arith
]

begun : GuestActivity → ArmedPolicy → GuestActivity
begun a fresh = record a { depth = a.depth + 1; armed = some fresh }

begun-IsValid : (a : GuestActivity) (fresh : ArmedPolicy) → IsValidActivity (begun a fresh)
unfolding begun
begun-IsValid a fresh zero_depth = let up : a.depth + 1 ≡ 0 = zero_depth in ground arith

armed_named :
    (o : Option ArmedPolicy) (w : World) (e : Error)
    → armed_due_error o w ≡ some e
    → (e ≡ timeout) ⊎ (e ≡ cancelled)
unfolding armed_due_error
armed_named none w e h = cc
armed_named (some a) w e h = due_error_named a w e h

module _ {H R : Type 0} (checked_add : ℕ → ℕ → Option ℕ) where
  run_interrupted :
      (f : Action H R) (m : Machine H) (fresh : ArmedPolicy)
      → IsBalanced f
      → (run_active checked_add f (with_activity (begun (m.guest.activity) fresh) m)).0
        ≡ err interrupted
      → due_error fresh
          ((run_active checked_add f (with_activity (begun (m.guest.activity) fresh) m)).1.world)
        ≡ none
  unfolding run_active with_activity activity_due_error begun armed_due_error
  run_interrupted f m fresh balanced h =
      let inner : Machine H = with_activity (begun (m.guest.activity) fresh) m in
      let after : Machine H = (f inner).1 in
      let k = balanced inner (begun-IsValid (m.guest.activity) fresh) in
      subst (λ o. armed_due_error o (after.world) ≡ none) (k.armed)
        (explain_interrupted (armed_due_error (after.guest.activity.armed) (after.world))
          ((f inner).0) (armed_named (after.guest.activity.armed) (after.world)) h)

  from_interrupted :
      (f : Action H R) (m : Machine H) (fresh : ArmedPolicy) (due : Option Error)
      → IsBalanced f
      → ((e : Error) → due ≡ some e → (e ≡ timeout) ⊎ (e ≡ cancelled))
      → (activate_from checked_add f m (begin_outermost (m.guest.activity) fresh due)).0
        ≡ err interrupted
      → due_error fresh
          ((activate_from checked_add f m (begin_outermost (m.guest.activity) fresh due)).1.world)
        ≡ none
  unfolding activate_from begin_outermost begun
  from_interrupted f m fresh none balanced named h = run_interrupted f m fresh balanced h
  from_interrupted f m fresh (some e) balanced named h = elim (named e refl) [
    | inl t ↦ ground arith
    | inr c ↦ ground arith
  ]

  -- An outermost entry of an open guest that reports `Interrupted` ends with a policy that is not
  -- due: an interruption for a timeout or a cancellation, counted from this entry on, is always
  -- reported as that. The closure is balanced.
  pub enter-interrupted :
      (f : ℕ → Action H R) (m : Machine H)
      → ((token : ℕ) → IsBalanced (f token))
      → m.guest.closed ≡ false
      → m.guest.activity.depth ≡ 0
      → (enter checked_add f m).0 ≡ err interrupted
      → due_error
          (arm checked_add m.guest.activity.policy m.world)
          ((enter checked_add f m).1.world)
        ≡ none
  unfolding activate
  enter-interrupted f m balanced is_open idle h =
      let fresh : ArmedPolicy = arm checked_add m.guest.activity.policy m.world in
      let outer =
        enter_open checked_add f m is_open
        ∙ ap (activate_from checked_add (f (m.guest.context_id)) m)
            (begin_idle checked_add (m.world) (m.guest.activity) idle) in
      subst (λ r. r.0 ≡ err interrupted → due_error fresh (r.1.world) ≡ none) (sym outer)
        (from_interrupted (f (m.guest.context_id)) m fresh (due_error fresh (m.world))
          (balanced (m.guest.context_id)) (due_error_named fresh (m.world)))
        h
