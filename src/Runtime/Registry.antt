-- ===== src/Runtime/Registry.antt =====
-- The map of `GuestRegistry` (crates/guestjs-core/src/guest/registry.rs).
use guestjs.Prelude.{ℕ, ◌≡◌, none, some, [], ◌∷◌, ◌==◌, arith, if◌then◌else◌}
use guestjs.Runtime.{Registry, lookup, remove, register}

pub lookup-remove :
    (c k : ℕ) (r : Registry) → lookup c (remove k r) ≡ (if c == k then none else lookup c r)
unfolding lookup remove
lookup-remove c k [] = ground arith
lookup-remove c k ((key, guest) ∷ rest) = ground (arith, lookup-remove c k rest)

pub lookup-register :
    (c k g : ℕ) (r : Registry) → lookup c (register k g r) ≡ (if c == k then some g else lookup c r)
unfolding lookup register
lookup-register c k g r = ground (arith, lookup-remove c k r)
