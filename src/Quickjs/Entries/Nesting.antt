-- ===== src/Quickjs/Entries/Nesting.antt =====
-- Entries of the engine (crates/guestjs-quickjs/src/engine.rs) nest.
use guestjs.Prelude.{
  ◌≡◌, sym, ap, ◌∙◌, true, false, ltb, ◌+◌, ◌<◌, Option, none, some, arith, Bool-cases, inl, inr,
}
use guestjs.Quickjs.Entries.{
  Lock, Engine, Operation, is_entered, enter_depth, leave_depth, leaving, guarded, unlocking,
  locked_in, context_with, enter_when, enter_engine,
}

-- The documented behaviour of the lock.
pub record IsLock {S : Type 0} (lock : Lock S) : Type 0 where
  pub acquired : (s : S) → lock.is_held (lock.acquire s) ≡ true
  pub free : (s : S) → lock.is_held (lock.give_back s) ≡ false

module _ {S : Type 0} (lock : Lock S) where
  -- The lock is held exactly while the engine is entered.
  abbrev pub IsConsistent : Engine S → Type 0
  IsConsistent e = lock.is_held e.runtime ≡ is_entered e

  -- An operation has returned, at the depth at which it began and with the lock as it was.
  pub record Returned {A : Type 0} (before : Engine S) (result : Option (A × Engine S))
      : Type 0 where
    pub value : A
    pub after : Engine S
    pub returned : result ≡ some (value, after)
    pub depth : after.depth ≡ before.depth
    pub consistent : IsConsistent after

  -- What a closure may be: it returns in this way wherever the engine is entered.
  abbrev pub IsSafe : {A : Type 0} → Operation S A → Type 0
  IsSafe f = (e : Engine S) → IsConsistent e → (0 < e.depth) → Returned e (f e)

  guarded-Returned :
      {A : Type 0} (f : Operation S A) (e : Engine S)
      → IsSafe f
      → lock.is_held e.runtime ≡ true
      → (value : A) × (after : Engine S) × (guarded f e ≡ some (value, after))
        × (after.depth ≡ e.depth)
        × (lock.is_held after.runtime ≡ true)
  unfolding guarded leaving leave_depth enter_depth is_entered
  guarded-Returned f e safe held =
      let positive : ltb 0 (e.depth + 1) ≡ true = ground arith in
      let inner = safe (enter_depth e) (held ∙ sym positive) (omega arith) in
      let deep : inner.after.depth ≡ e.depth + 1 = inner.depth in
      let still : ltb 0 inner.after.depth ≡ true = ground (arith, deep) in
      (
        inner.value,
        leave_depth inner.after,
        ap leaving inner.returned,
        omega (arith, deep),
        inner.consistent ∙ still,
      )

  -- However entries nest, none meets the lock that another one holds: an entry of a consistent
  -- engine does not panic, and it leaves the engine at its depth and consistent, whether it was the
  -- outermost one or not. The closure is safe, as an entry with a safe closure itself is.
  pub enter_engine-Returned :
      {A : Type 0} (f : Operation S A) (e : Engine S)
      → IsLock lock
      → IsSafe f
      → IsConsistent e
      → Returned e (enter_engine lock f e)
  unfolding enter_engine enter_when context_with locked_in unlocking is_entered
  enter_engine-Returned f e laws safe v = elim (Bool-cases (is_entered e)) [
    | inl inside ↦
        let (value, after, returned, depth, held) = guarded-Returned f e safe (v ∙ inside) in
        record {
          value = value;
          after = after;
          returned = ap (λ b. enter_when lock b f e) inside ∙ returned;
          depth = depth;
          consistent = held ∙ sym (ap (ltb 0) depth ∙ inside);
        }
    | inr outside ↦
        let taken : Engine S = record e { runtime = lock.acquire e.runtime } in
        let (value, after, returned, depth, held) =
          guarded-Returned f taken safe (laws.acquired e.runtime) in
        record {
          value = value;
          after = record after { runtime = lock.give_back after.runtime };
          returned =
              ap (λ b. enter_when lock b f e) outside
              ∙ (ap (λ b. elim b [ true ↦ none | false ↦ locked_in lock (guarded f) e ])
                    (v ∙ outside)
                  ∙ ap (unlocking lock) returned);
          depth = depth;
          consistent = laws.free after.runtime ∙ sym (ap (ltb 0) depth ∙ outside);
        }
  ]

  -- so entries with safe closures nest
  pub enter_engine-IsSafe :
      {A : Type 0} (f : Operation S A) → IsLock lock → IsSafe f → IsSafe (enter_engine lock f)
  enter_engine-IsSafe f laws safe e v inside = enter_engine-Returned f e laws safe v
