-- ===== src/Guest.antt =====
-- crates/guestjs-core/src/guest/mod.rs (`GuestState`) and guest/activity.rs (`GuestActivity`):
-- entering a guest, with the policy armed by the outermost entry.
-- An operation takes the world and the guest's state, and returns both beside its result; the
-- closure that it is given is any such operation, so it may enter the guest again, close it,
-- and see time go by. `Activation`, whose `Drop` calls `finish`, is the end of `activate`.
pub mod Balance
pub mod Entry
pub mod Entered
use guestjs.Prelude.{
  ℕ, Bool, true, false, not, Option, none, some, ltb, ◌==◌, ◌+◌, ◌-◌, if◌then◌else◌,
}
use guestjs.Errors.{Error, Result, ok, err, interrupted, closed, foreign_context}
use guestjs.Policy.{World, ExecutionPolicy, ArmedPolicy, arm, due_error, is_due}

pub record GuestActivity : Type 0 where
  pub policy : ExecutionPolicy
  pub depth : ℕ
  pub armed : Option ArmedPolicy

unfoldable pub new_activity : ExecutionPolicy → GuestActivity
new_activity policy = record { policy = policy; depth = 0; armed = none }

-- At depth 0 the source's subtraction underflows; a live `Activation` keeps it from there.
unfoldable pub finish : GuestActivity → GuestActivity
finish a = record a { depth = a.depth - 1; armed = if (a.depth - 1) == 0 then none else a.armed }

unfoldable pub is_active : GuestActivity → Bool
is_active a = ltb 0 a.depth

-- the branch of `begin` for an activity that is not active
unfoldable pub begin_outermost : GuestActivity → ArmedPolicy → Option Error → Result GuestActivity
begin_outermost a fresh (some e) = err e
begin_outermost a fresh none = ok (record a { depth = a.depth + 1; armed = some fresh })

unfoldable pub begin : (ℕ → ℕ → Option ℕ) → World → GuestActivity → Result GuestActivity
unfolding is_active begin_outermost
begin checked_add w a =
    let fresh = arm checked_add a.policy w in
    elim (is_active a) [
      | true ↦ ok (record a { depth = a.depth + 1 })
      | false ↦ begin_outermost a fresh (due_error fresh w)
    ]

unfoldable pub armed_is_due : Option ArmedPolicy → World → Bool
armed_is_due none w = false
armed_is_due (some armed) w = is_due armed w

unfoldable pub activity_is_due : GuestActivity → World → Bool
unfolding armed_is_due
activity_is_due a w = armed_is_due a.armed w

unfoldable pub armed_due_error : Option ArmedPolicy → World → Option Error
armed_due_error none w = none
armed_due_error (some armed) w = due_error armed w

unfoldable pub activity_due_error : GuestActivity → World → Option Error
unfolding armed_due_error
activity_due_error a w = armed_due_error a.armed w

pub record GuestState : Type 0 where
  pub id : ℕ
  pub context_id : ℕ
  pub closed : Bool
  pub activity : GuestActivity

pub record Machine (H : Type 0) : Type 0 where
  -- what the engine keeps for the guest
  pub heap : H
  pub world : World
  pub guest : GuestState

abbrev pub Action : Type 0 → Type 0 → Type 0
Action H R = Machine H → Result R × Machine H

unfoldable pub with_activity : {H : Type 0} → GuestActivity → Machine H → Machine H
with_activity a m = record m { guest = record (m.guest) { activity = a } }

unfoldable pub close : {H : Type 0} → Machine H → Machine H
close m = record m { guest = record (m.guest) { closed = true } }

unfoldable pub unwrap_or : Error → Option Error → Error
unwrap_or e none = e
unwrap_or e (some due) = due

-- The error of an interrupted run is the reason for which it was interrupted.
unfoldable pub explain : {R : Type 0} → Option Error → Result R → Result R
unfolding unwrap_or
explain due (err interrupted) = err (unwrap_or interrupted due)
explain due result = result

module _ {H R : Type 0} (checked_add : ℕ → ℕ → Option ℕ) where
  -- the body of `activate` after `begin`, up to the drop of the activation
  unfoldable pub run_active : Action H R → Machine H → Result R × Machine H
  unfolding explain activity_due_error finish with_activity
  run_active f m =
      let (result, after) = f m in
      (
        explain (activity_due_error (after.guest.activity) (after.world)) result,
        with_activity (finish (after.guest.activity)) after,
      )

  unfoldable pub activate_from :
      Action H R → Machine H → Result GuestActivity → Result R × Machine H
  unfolding run_active
  activate_from f m (err e) = (err e, m)
  activate_from f m (ok a) = run_active f (with_activity a m)

  unfoldable pub activate : Action H R → Action H R
  unfolding begin activate_from
  activate f m = activate_from f m (begin checked_add (m.world) (m.guest.activity))

  -- `B::enter` runs the closure with a token of the guest's context.
  unfoldable pub enter : (ℕ → Action H R) → Action H R
  unfolding activate
  enter f m = elim (m.guest.closed) [
    | true ↦ (err closed, m)
    | false ↦ activate (f (m.guest.context_id)) m
  ]

  unfoldable pub reenter_from :
      ℕ → (ℕ → Action H R) → Machine H → Bool → Bool → Result R × Machine H
  reenter_from token f m true _ = (err closed, m)
  reenter_from token f m false false = (err foreign_context, m)
  reenter_from token f m false true = activate (f token) m

  -- A token is known by the context that it belongs to.
  unfoldable pub reenter : ℕ → (ℕ → Action H R) → Action H R
  reenter token f m = reenter_from token f m (m.guest.closed) (token == m.guest.context_id)
