-- ===== src/Tests/Hosts.antt =====
-- Runs of crates/guestjs-core/src/host/.
use guestjs.Prelude.{ℕ, ◌≡◌, refl, ◌+◌, Option, none, some, List, [], ◌∷◌}
use guestjs.Text.{Str, codes}
use guestjs.Errors.{Result, ok}
use guestjs.Futures.{Poll, ready}
use guestjs.Host.Shared.{waiting_turn, finished_turn, new_shared, next_call, poll_call}
use guestjs.Host.Shared.Order.{InTurn, Reachable, starts, calls, polls, Reachable-InTurn}
use guestjs.Host.Modules.{
  DeclarationCall, require_call, member_call, state_call, new_declaration, declare_all, exports,
}
use guestjs.Host.Modules.Exports.{Exported, requirements_of, members_of, exports-Exported}

-- a stream that is ready with the items of a list
abbrev pour : List ℕ → ℕ → Poll (Option (Result ℕ)) × (List ℕ × ℕ)
pour [] s = (ready none, ([], s))
pour (x ∷ xs) s = (ready (some (ok x)), (xs, s))

-- two calls, of which the second one is polled first
asked_twice :
    Reachable pour
      (record { stream = some (8 ∷ []); turns = finished_turn (some (ok 7)) ∷ (waiting_turn ∷ []) })
      (some (ok 7) ∷ [])
unfolding new_shared next_call poll_call
asked_twice = polls 0 0 (polls 1 0 (calls (calls (starts (7 ∷ (8 ∷ []))))))

Reachable-InTurn_example :
    InTurn {T = ℕ} (finished_turn (some (ok 7)) ∷ (waiting_turn ∷ [])) (some (ok 7) ∷ [])
Reachable-InTurn_example =
    Reachable-InTurn pour
      (record { stream = some (8 ∷ []); turns = finished_turn (some (ok 7)) ∷ (waiting_turn ∷ []) })
      (some (ok 7) ∷ []) asked_twice

-- a member is a number, and its value in the guest the sum with the state of the module
abbrev add_state : ℕ → ℕ → Str → ℕ → Result ℕ × ℕ
add_state declaration state name s = (ok (declaration + state), s + 1)

abbrev some_calls : List (DeclarationCall ℕ ℕ ℕ)
some_calls =
    member_call (codes "one") 1
    ∷ (state_call (λ s. (ok 10, s))
        ∷ (require_call (λ state. ok tt) ∷ (member_call (codes "two") 2 ∷ [])))

two_exports :
    exports add_state (declare_all (new_declaration 0 (codes "math")) some_calls) 0
    ≡ (ok ((codes "one", 11) ∷ ((codes "two", 12) ∷ [])), 2)
unfolding exports new_declaration declare_all
two_exports = refl

exports-Exported_example :
    Exported add_state
      (requirements_of some_calls)
      (members_of some_calls)
      ((declare_all (new_declaration 0 (codes "math")) some_calls).state 0)
      ((codes "one", 11) ∷ ((codes "two", 12) ∷ []))
      2
exports-Exported_example =
    exports-Exported add_state 0 (codes "math") some_calls 0 2
      ((codes "one", 11) ∷ ((codes "two", 12) ∷ [])) two_exports
