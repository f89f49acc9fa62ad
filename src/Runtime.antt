-- ===== src/Runtime.antt =====
-- crates/guestjs-core/src/runtime.rs (`RuntimeState`) and guest/registry.rs (`GuestRegistry`):
-- the guests of a runtime, found by the context that they run in.
-- A guest is named by its id. `Rc` is a count of the handles that hold a guest: the last handle to
-- go drops the `GuestState`, which takes the guest out of the registry. The map of the registry
-- is an association list; the order in which `guests` lists it is left open.
pub mod Registry
pub mod Reachable
pub mod Guests
use guestjs.Prelude.{
  ℕ, Bool, true, false, Option, none, some, List, [], ◌∷◌, any, ltb, ◌==◌, ◌+◌, ◌-◌, ◌^◌,
  if◌then◌else◌,
}

abbrev pub Registry : Type 0
Registry = List (ℕ × ℕ)

unfoldable pub lookup : ℕ → Registry → Option ℕ
lookup context [] = none
lookup context ((key, guest) ∷ rest) = if key == context then some guest else lookup context rest

-- `GuestRegistry::remove`
unfoldable pub remove : ℕ → Registry → Registry
remove context [] = []
remove context ((key, guest) ∷ rest) =
    if key == context then remove context rest else (key, guest) ∷ remove context rest

-- `GuestRegistry::insert`
unfoldable pub register : ℕ → ℕ → Registry → Registry
unfolding remove
register context guest registry = (context, guest) ∷ remove context registry

pub record Runtime : Type 0 where
  pub registry : Registry
  pub next_id : ℕ
  pub handles : ℕ → ℕ
  pub context : ℕ → ℕ

unfoldable pub new_runtime : Runtime
new_runtime = record { registry = []; next_id = 1; handles = λ g. 0; context = λ g. 0 }

-- `checked_add(1)` on a 64-bit counter: none where the source panics.
unfoldable pub succeed : ℕ → Option ℕ
succeed id = if ltb (id + 1) (2 ^ 64) then some (id + 1) else none

unfoldable pub update : ℕ → ℕ → (ℕ → ℕ) → ℕ → ℕ
update key value f k = if k == key then value else f k

created : ℕ → Runtime → Option ℕ → Option (ℕ × Runtime)
unfolding update register
created context r none = none
created context r (some next) = some (
  r.next_id,
  record {
    registry = register context r.next_id r.registry;
    next_id = next;
    handles = update r.next_id 1 r.handles;
    context = update r.next_id context r.context;
  },
)

-- `Guest::from_policy` on a context that the engine has made
unfoldable pub create : ℕ → Runtime → Option (ℕ × Runtime)
unfolding created succeed
create context r = created context r (succeed r.next_id)

-- `Guest::clone`
unfoldable pub clone : ℕ → Runtime → Runtime
unfolding update
clone guest r = record r { handles = update guest (r.handles guest + 1) r.handles }

-- The drop of one handle of a guest, with that of its `GuestState` after the last one.
unfoldable pub release : ℕ → Runtime → Runtime
unfolding update remove
release guest r = record r {
  handles = update guest (r.handles guest - 1) r.handles;
  registry = if r.handles guest == 1 then remove (r.context guest) r.registry else r.registry;
}

-- `WeakGuest::upgrade`
unfoldable pub upgrade : Runtime → ℕ → Option ℕ
upgrade r guest = if ltb 0 (r.handles guest) then some guest else none

upgrade_found : Runtime → Option ℕ → Option ℕ
unfolding upgrade
upgrade_found r none = none
upgrade_found r (some guest) = upgrade r guest

-- `GuestRegistry::find`
unfoldable pub find_guest : ℕ → Runtime → Option ℕ
unfolding upgrade_found
find_guest context r = upgrade_found r (lookup context r.registry)

unfoldable pub upgrade_all : Runtime → Registry → List ℕ
upgrade_all r [] = []
upgrade_all r ((key, guest) ∷ rest) = elim (upgrade r guest) [
  | none ↦ upgrade_all r rest
  | some g ↦ g ∷ upgrade_all r rest
]

-- `GuestRegistry::guests`
unfoldable pub guests : Runtime → List ℕ
unfolding upgrade_all
guests r = upgrade_all r r.registry

-- The condition that `install_policy_interrupt` gives to the engine; `due` tells whether the
-- activity of a guest is due.
unfoldable pub interrupts : (ℕ → Bool) → Runtime → Bool
unfolding guests
interrupts due r = any due (guests r)
