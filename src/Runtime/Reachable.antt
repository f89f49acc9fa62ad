-- ===== src/Runtime/Reachable.antt =====
-- The registry and the live guests of a runtime (crates/guestjs-core/src/runtime.rs) agree,
-- whatever guests an application creates, clones and drops.
use guestjs.Prelude.{
  ℕ, ◌≡◌, ◌≢◌, inl, inr, some, ◌==◌, arith, Bool-cases, ◌<◌, ◌+◌, ◌^◌, ltb, subst,
}
use guestjs.Runtime.{
  Runtime, lookup, register, new_runtime, succeed, update, created, create, clone, release,
}
use guestjs.Runtime.Registry.{lookup-remove, lookup-register}

abbrev pub IsLive : Runtime → ℕ → Type 0
IsLive r guest = 0 < r.handles guest

pub record IsValid (r : Runtime) : Type 0 where
  -- a live guest is registered under its context
  pub registered : (g : ℕ) → IsLive r g → lookup (r.context g) r.registry ≡ some g
  -- what is registered under a context is a live guest of that context
  pub owner : (c g : ℕ) → lookup c r.registry ≡ some g → (r.context g ≡ c) × IsLive r g
  -- an id that is taken is below the counter
  pub counted : (g : ℕ) → IsLive r g → g < r.next_id

-- The engine gives a context that no live guest runs in.
abbrev pub IsFresh : ℕ → Runtime → Type 0
IsFresh context r = (g : ℕ) → IsLive r g → r.context g ≢ context

-- What an application does with the guests of a runtime.
pub data Reachable : Runtime → Type 0 where
  start : Reachable new_runtime
  created_guest :
      {r s : Runtime} {g : ℕ}
      → Reachable r
      → (context : ℕ) → IsFresh context r
      → create context r ≡ some (g, s)
      → Reachable s
  cloned : {r : Runtime} → Reachable r → (g : ℕ) → IsLive r g → Reachable (clone g r)
  released : {r : Runtime} → Reachable r → (g : ℕ) → IsLive r g → Reachable (release g r)

new-IsValid : IsValid new_runtime
unfolding new_runtime lookup
new-IsValid = record {
  registered = λ g h. absurd (omega (arith, h));
  owner = λ c g h. cc;
  counted = λ g h. absurd (omega (arith, h));
}

clone-IsValid : (g : ℕ) (r : Runtime) → IsLive r g → IsValid r → IsValid (clone g r)
unfolding clone
clone-IsValid g r l v = record {
  registered = λ k h. v.registered k (ground (arith, l));
  owner = λ c k h. let (same, live) = v.owner c k h in (same, ground arith);
  counted = λ k h. v.counted k (ground (arith, l));
}

record_of : Runtime → ℕ → ℕ → Runtime
record_of r context next = record {
  registry = register context r.next_id r.registry;
  next_id = next;
  handles = update r.next_id 1 r.handles;
  context = update r.next_id context r.context;
}

create-IsValid :
    (context next : ℕ) (r : Runtime)
    → IsFresh context r
    → r.next_id < next
    → IsValid r
    → IsValid (record_of r context next)
unfolding record_of update
create-IsValid context next r fresh more v = record {
  registered = λ g h. elim (Bool-cases (r.next_id == g)) [
    | inl e ↦ ground (arith, lookup-register context context r.next_id r.registry)
    | inr n ↦
        let live : 0 < r.handles g = ground arith in
        let other : r.context g ≢ context = fresh g live in
        ground
          (arith, lookup-register (r.context g) context r.next_id r.registry, v.registered g live)
  ];
  owner = λ c g h. elim (Bool-cases (c == context)) [
    | inl e ↦
        let found : some r.next_id ≡ some g =
          ground (arith, lookup-register c context r.next_id r.registry) in
        (ground arith, ground arith)
    | inr n ↦
        let before : lookup c r.registry ≡ some g =
          ground (arith, lookup-register c context r.next_id r.registry) in
        let (same, live) = v.owner c g before in
        let below : g < r.next_id = v.counted g live in (ground arith, ground arith)
  ];
  counted = λ g h. elim (Bool-cases (r.next_id == g)) [
    | inl e ↦ ground arith
    | inr n ↦
        let live : 0 < r.handles g = ground arith in
        let below : g < r.next_id = v.counted g live in omega (arith, below, more)
  ];
}

-- two live guests never share a context
live_apart :
    (g k : ℕ) (r : Runtime)
    → IsValid r
    → IsLive r g
    → IsLive r k
    → r.context k ≡ r.context g
    → k ≡ g
live_apart g k r v l m same =
    let first : lookup (r.context g) r.registry ≡ some g = v.registered g l in
    let other : lookup (r.context k) r.registry ≡ some k = v.registered k m in
    let shared : lookup (r.context k) r.registry ≡ some g = rw same first in ground arith

module _ (g : ℕ) (r : Runtime) (l : IsLive r g) (v : IsValid r) where
  released_live : (k : ℕ) → IsLive (release g r) k → IsLive r k
  unfolding release
  released_live k h = ground (arith, l)

  released_registered :
      (k : ℕ) → IsLive (release g r) k → lookup (r.context k) (release g r).registry ≡ some k
  unfolding release
  released_registered k h =
      let live : 0 < r.handles k = released_live k h in
      let known : lookup (r.context k) r.registry ≡ some k = v.registered k live in
      ground
        (arith, lookup-remove (r.context k) (r.context g) r.registry, live_apart g k r v l live)

  released_owner :
      (c k : ℕ)
      → lookup c (release g r).registry ≡ some k
      → (r.context k ≡ c) × IsLive (release g r) k
  unfolding release
  released_owner c k h =
      let before : lookup c r.registry ≡ some k =
        ground (arith, lookup-remove c (r.context g) r.registry) in
      let (same, live) = v.owner c k before in
      (same, ground (arith, l, lookup-remove c (r.context g) r.registry))

  release-IsValid : IsValid (release g r)
  unfolding release
  release-IsValid = record {
    registered = released_registered;
    owner = released_owner;
    counted = λ k h. v.counted k (released_live k h);
  }

create_sound :
    (context : ℕ) (r s : Runtime) {g : ℕ}
    → IsFresh context r
    → IsValid r
    → create context r ≡ some (g, s)
    → IsValid s
unfolding create created succeed record_of
create_sound context r s {g} fresh v e = elim (Bool-cases (ltb (r.next_id + 1) (2 ^ 64))) [
  | inl fits ↦
      let made : record_of r context (r.next_id + 1) ≡ s = ground arith in
      subst IsValid made (create-IsValid context (r.next_id + 1) r fresh (omega arith) v)
  | inr full ↦ cc
]

-- In every runtime that can be reached, the live guests and the registry agree: a live guest is
-- registered under its context, what is registered under a context is a live guest of it, and no
-- guest has the id that comes next. A guest is created only on a context that no live guest has.
pub Reachable-IsValid : {r : Runtime} → Reachable r → IsValid r
Reachable-IsValid start = new-IsValid
Reachable-IsValid (created_guest {r} {s} reach context fresh e) =
    create_sound context r s fresh (Reachable-IsValid reach) e
Reachable-IsValid (cloned {r} reach g l) = clone-IsValid g r l (Reachable-IsValid reach)
Reachable-IsValid (released {r} reach g l) = release-IsValid g r l (Reachable-IsValid reach)
