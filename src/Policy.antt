-- ===== src/Policy.antt =====
-- crates/guestjs-core/src/policy.rs: the execution policy of a guest, and a policy armed at the
-- moment a run starts. What the source reads from outside is the `World`: the clock, and the
-- signals, each an `AtomicBool` or a `CancelSignal` of the embedding, named by a number.
-- `Instant::checked_add` is a parameter: whether a deadline can be represented is the platform's.
pub mod Laws
pub mod Runs
use guestjs.Prelude.{ℕ, Bool, true, false, ◌||◌, Option, none, some, leb, ◌==◌}
use guestjs.Errors.{Error, timeout, cancelled}

pub record World : Type 0 where
  pub now : ℕ
  pub signals : ℕ → Bool

-- `Cancellation::cancel`
unfoldable pub cancel : ℕ → World → World
cancel signal w = record w { signals = λ s. (s == signal) || w.signals s }

-- `Cancellation::is_cancelled`
unfoldable pub signal_is_cancelled : ℕ → World → Bool
signal_is_cancelled signal w = w.signals signal

pub record ExecutionPolicy : Type 0 where
  pub time_limit : Option ℕ
  pub cancellation : Option ℕ

unfoldable pub new_policy : ExecutionPolicy
new_policy = record { time_limit = none; cancellation = none }

unfoldable pub with_timeout : ℕ → ExecutionPolicy → ExecutionPolicy
with_timeout limit policy = record policy { time_limit = some limit }

unfoldable pub with_cancellation : ℕ → ExecutionPolicy → ExecutionPolicy
with_cancellation signal policy = record policy { cancellation = some signal }

pub record ArmedPolicy : Type 0 where
  pub deadline : Option ℕ
  pub cancellation : Option ℕ

unfoldable pub deadline_of : (ℕ → ℕ → Option ℕ) → Option ℕ → ℕ → Option ℕ
deadline_of checked_add none now = none
deadline_of checked_add (some limit) now = checked_add now limit

-- `ExecutionPolicy::arm`, which is `ArmedPolicy::new` on the policy's parts
unfoldable pub arm : (ℕ → ℕ → Option ℕ) → ExecutionPolicy → World → ArmedPolicy
arm checked_add policy w = record {
  deadline = deadline_of checked_add policy.time_limit w.now;
  cancellation = policy.cancellation;
}

unfoldable pub past : Option ℕ → ℕ → Bool
past none now = false
past (some deadline) now = leb deadline now

unfoldable pub raised : Option ℕ → World → Bool
unfolding signal_is_cancelled
raised none w = false
raised (some signal) w = signal_is_cancelled signal w

unfoldable pub is_expired : ArmedPolicy → World → Bool
unfolding past
is_expired armed w = past armed.deadline w.now

unfoldable pub is_cancelled : ArmedPolicy → World → Bool
unfolding raised
is_cancelled armed w = raised armed.cancellation w

unfoldable pub due_error_of : Bool → Bool → Option Error
due_error_of true _ = some timeout
due_error_of false true = some cancelled
due_error_of false false = none

unfoldable pub due_error : ArmedPolicy → World → Option Error
unfolding is_expired is_cancelled due_error_of
due_error armed w = due_error_of (is_expired armed w) (is_cancelled armed w)

unfoldable pub is_due : ArmedPolicy → World → Bool
unfolding is_expired is_cancelled
is_due armed w = is_expired armed w || is_cancelled armed w
