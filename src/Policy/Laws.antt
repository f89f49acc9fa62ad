-- ===== src/Policy/Laws.antt =====
-- What an armed policy (crates/guestjs-core/src/policy.rs) promises to the run that it guards.
use guestjs.Prelude.{
  ℕ, ◌≡◌, refl, true, false, Option, none, some, ◌+◌, ◌≤◌, arith, is_some, ◌⊎◌, inl, inr,
  Option-cases, Bool-cases,
}
use guestjs.Errors.{Error, timeout, cancelled}
use guestjs.Policy.{
  World, ExecutionPolicy, ArmedPolicy, arm, past, raised, is_expired, is_cancelled, due_error,
  due_error_of, is_due, deadline_of, cancel, signal_is_cancelled,
}

-- `is_due` is the question whether `due_error` has an answer: the interrupt handler, which asks
-- the first, and the entry points, which ask the second, agree.
pub due_error-is_due : (a : ArmedPolicy) (w : World) → is_some (due_error a w) ≡ is_due a w
unfolding due_error is_due due_error_of
due_error-is_due a w = ground arith

past_iff :
    (checked_add : ℕ → ℕ → Option ℕ)
    → (limit : Option ℕ) (start now : ℕ) → ((t d x : ℕ) → checked_add t d ≡ some x → x ≡ t + d)
    → past (deadline_of checked_add limit start) now ≡ true
    → (d : ℕ) × (limit ≡ some d) × (start + d ≤ now)
unfolding past deadline_of
past_iff checked_add none start now exact h = cc
past_iff checked_add (some d) start now exact h = elim (Option-cases (checked_add start d)) [
  | inl e ↦ cc
  | inr (x, e) ↦ let sum : x ≡ start + d = exact start d x e in (d, refl, ground arith)
]

-- A run is stopped for its timeout only when the policy has one and at least that much time has
-- gone by since the policy was armed; `checked_add` is known to give the sum where it gives one.
pub arm-is_expired :
    (checked_add : ℕ → ℕ → Option ℕ)
    → ((t d x : ℕ) → checked_add t d ≡ some x → x ≡ t + d)
    → (policy : ExecutionPolicy) (v w : World) → is_expired (arm checked_add policy v) w ≡ true
    → (d : ℕ) × (policy.time_limit ≡ some d) × (v.now + d ≤ w.now)
unfolding is_expired arm
arm-is_expired checked_add exact policy v w h =
    past_iff checked_add policy.time_limit v.now w.now exact h

raised-cancel :
    (s : Option ℕ) (signal : ℕ) (w : World) → s ≡ some signal → raised s (cancel signal w) ≡ true
unfolding raised signal_is_cancelled cancel
raised-cancel none signal w e = cc
raised-cancel (some s) signal w e = ground arith

cancel_clock : (signal : ℕ) (w : World) → (cancel signal w).now ≡ w.now
unfolding cancel
cancel_clock signal w = refl

-- Raising the signal that a policy was given makes the armed policy due at once; the error is
-- the timeout's when the deadline has passed as well, and the cancellation's otherwise.
pub due_error-cancel :
    (a : ArmedPolicy) (signal : ℕ) (w : World)
    → a.cancellation ≡ some signal
    → due_error a (cancel signal w)
      ≡ some (elim (is_expired a w) [ true ↦ timeout | false ↦ cancelled ])
unfolding due_error is_cancelled due_error_of is_expired
due_error-cancel a signal w e =
    ground (arith, raised-cancel a.cancellation signal w e, cancel_clock signal w)

-- The error of a due policy is one of the two, so never `Interrupted`.
pub due_error_named :
    (a : ArmedPolicy) (w : World) (e : Error)
    → due_error a w ≡ some e
    → (e ≡ timeout) ⊎ (e ≡ cancelled)
unfolding due_error due_error_of
due_error_named a w e h = elim (Bool-cases (is_expired a w)) [
  | inl x ↦ inl (ground arith)
  | inr x ↦ elim (Bool-cases (is_cancelled a w)) [ inl y ↦ inr (ground arith) | inr y ↦ cc ]
]
