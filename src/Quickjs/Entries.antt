-- ===== src/Quickjs/Entries.antt =====
-- `Engine` of crates/guestjs-quickjs/src/engine.rs with `Context::with` and `with_held_lock` of
-- context.rs: how the engine is entered. What rquickjs keeps is the state `S`, and its lock a
-- parameter; a panic is none. A closure is any operation on the engine, so it may enter again.
pub mod Nesting
use guestjs.Prelude.{ℕ, Bool, true, false, ltb, ◌+◌, ◌-◌, Option, none, some}
use guestjs.Errors.{Error, Result, ok, err, unsupported, engine, literal}
use guestjs.Futures.{Poll, pending, ready}

-- The lock of the runtime.
pub record Lock (S : Type 0) : Type 0 where
  pub is_held : S → Bool
  pub acquire : S → S
  pub give_back : S → S

pub record Engine (S : Type 0) : Type 0 where
  pub depth : ℕ
  pub runtime : S

abbrev pub Operation : Type 0 → Type 0 → Type 0
Operation S A = Engine S → Option (A × Engine S)

module _ {S : Type 0} where
  unfoldable pub is_entered : Engine S → Bool
  is_entered e = ltb 0 e.depth

  -- `DepthGuard::new`, and its `Drop`
  unfoldable pub enter_depth : Engine S → Engine S
  enter_depth e = record e { depth = e.depth + 1 }

  unfoldable pub leave_depth : Engine S → Engine S
  leave_depth e = record e { depth = e.depth - 1 }

  unfoldable pub leaving : {A : Type 0} → Option (A × Engine S) → Option (A × Engine S)
  unfolding leave_depth
  leaving none = none
  leaving (some (a, e)) = some (a, leave_depth e)

  -- an operation while the guard is alive
  unfoldable pub guarded : {A : Type 0} → Operation S A → Operation S A
  unfolding leaving enter_depth
  guarded f e = leaving (f (enter_depth e))

module _ {S : Type 0} (lock : Lock S) where
  unfoldable pub unlocking : {A : Type 0} → Option (A × Engine S) → Option (A × Engine S)
  unlocking none = none
  unlocking (some (a, e)) = some (a, record e { runtime = lock.give_back e.runtime })

  unfoldable pub locked_in : {A : Type 0} → Operation S A → Operation S A
  unfolding unlocking
  locked_in f e = unlocking (f (record e { runtime = lock.acquire e.runtime }))

  -- `Context::with`, which panics where the lock is held
  unfoldable pub context_with : {A : Type 0} → Operation S A → Operation S A
  unfolding locked_in
  context_with f e = elim (lock.is_held e.runtime) [ true ↦ none | false ↦ locked_in f e ]

  unfoldable pub enter_when : {A : Type 0} → Bool → Operation S A → Operation S A
  unfolding guarded context_with
  enter_when true f e = guarded f e
  enter_when false f e = context_with (guarded f) e

  unfoldable pub enter_engine : {A : Type 0} → Operation S A → Operation S A
  unfolding enter_when is_entered
  enter_engine f e = enter_when (is_entered e) f e

  -- A poll of `execute_pending_job` waits for the lock, and `job` runs under it.
  unfoldable pub poll_jobs_when :
      Bool → Operation S (Result Bool) → Operation S (Poll (Result Bool))
  unfolding guarded locked_in
  poll_jobs_when true job e = some (ready (ok false), e)
  poll_jobs_when false job e =
      guarded
        (λ inner. elim (lock.is_held inner.runtime) [
          | true ↦ some (pending, inner)
          | false ↦ answered (locked_in job inner)
        ])
        e
    where
      answered : Option (Result Bool × Engine S) → Option (Poll (Result Bool) × Engine S)
      answered none = none
      answered (some (r, left)) = some (ready r, left)

  unfoldable pub poll_jobs : Operation S (Result Bool) → Operation S (Poll (Result Bool))
  unfolding poll_jobs_when is_entered
  poll_jobs job e = poll_jobs_when (is_entered e) job e
