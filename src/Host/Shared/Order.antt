-- ===== src/Host/Shared/Order.antt =====
-- The calls of a shared stream (crates/guestjs-core/src/host/stream.rs) take turns.
use guestjs.Prelude.{
  ℕ, zero, suc, ◌≡◌, refl, sym, ap, Bool, true, false, Option, List, [], ◌∷◌, push, subst,
}
use guestjs.Text.{Str}
use guestjs.Errors.{Result}
use guestjs.Futures.{Poll, pending, ready}
use guestjs.Host.Shared.{
  Turn, waiting_turn, polling_turn, finished_turn, SharedStream, new_shared, next_call,
  close_shared, turn_after, poll_stream, take_turn, poll_turn, poll_at, poll_call, is_finished,
}

module _ {T : Type 0} where
  abbrev pub all_waiting : ℕ → List (Turn T)
  all_waiting zero = []
  all_waiting (suc n) = waiting_turn ∷ all_waiting n

  -- The calls that are finished, with these results, come first; at most the one after them polls
  -- the stream, and all that follow wait.
  pub data InTurn : List (Turn T) → List (Option (Result T)) → Type 0 where
    none_polls : (n : ℕ) → InTurn (all_waiting n) []
    one_polls : (n : ℕ) → InTurn (polling_turn ∷ all_waiting n) []
    one_finished :
        {turns : List (Turn T)} {results : List (Option (Result T))} (result : Option (Result T))
        → InTurn turns results
        → InTurn (finished_turn result ∷ turns) (result ∷ results)

  -- the results in the order in which they came
  abbrev pub came : Poll (Option (Result T)) → List (Option (Result T)) → List (Option (Result T))
  came pending results = results
  came (ready result) results = push results result

  push-all_waiting : (n : ℕ) → push (all_waiting n) waiting_turn ≡ all_waiting (suc n)
  push-all_waiting zero = refl
  push-all_waiting (suc n) = ap (λ turns. waiting_turn ∷ turns) (push-all_waiting n)

  push-InTurn :
      (turns : List (Turn T)) (results : List (Option (Result T)))
      → InTurn turns results
      → InTurn (push turns waiting_turn) results
  push-InTurn _ _ (none_polls n) =
      subst (λ t. InTurn t []) (sym (push-all_waiting n)) (none_polls (suc n))
  push-InTurn _ _ (one_polls n) =
      subst (λ t. InTurn (polling_turn ∷ t) []) (sym (push-all_waiting n)) (one_polls (suc n))
  push-InTurn _ _ (one_finished {turns = turns} {results = results} result q) =
      one_finished result (push-InTurn turns results q)

  turn_after-InTurn :
      (answer : Poll (Option (Result T))) (n : ℕ)
      → InTurn (turn_after answer ∷ all_waiting n) (came answer [])
  unfolding turn_after
  turn_after-InTurn pending n = one_polls n
  turn_after-InTurn (ready result) n = one_finished result (none_polls n)

  came-cons :
      (answer : Poll (Option (Result T))) (result : Option (Result T))
      (results : List (Option (Result T)))
      → came answer (result ∷ results) ≡ result ∷ came answer results
  came-cons pending result results = refl
  came-cons (ready last) result results = refl

module _ {S X T : Type 0} (poll_next : X → S → Poll (Option (Result T)) × (X × S)) where
  poll_at-all_waiting :
      (call n : ℕ) (stream : Option X) (s : S)
      → poll_at poll_next call false (all_waiting n) stream s
        ≡ (pending, (all_waiting n, (stream, s)))
  unfolding poll_at poll_turn is_finished
  poll_at-all_waiting call zero stream s = refl
  poll_at-all_waiting zero (suc n) stream s = refl
  poll_at-all_waiting (suc call) (suc n) stream s =
      ap (λ p. (p.0, (waiting_turn ∷ p.1.0, p.1.1))) (poll_at-all_waiting call n stream s)

  abbrev InTurnAfter :
      Poll (Option (Result T)) × (List (Turn T) × (Option X × S))
      → List (Option (Result T))
      → Type 0
  InTurnAfter (answer, (turns, left)) results = InTurn turns (came answer results)

  poll_at-InTurn :
      (call : ℕ) (turns : List (Turn T)) (results : List (Option (Result T))) (stream : Option X)
      (s : S)
      → InTurn turns results
      → InTurnAfter (poll_at poll_next call true turns stream s) results
  unfolding poll_at poll_turn take_turn is_finished
  poll_at-InTurn call _ _ stream s (none_polls zero) = none_polls zero
  poll_at-InTurn zero _ _ stream s (none_polls (suc n)) =
      turn_after-InTurn (poll_stream poll_next stream s).0 n
  poll_at-InTurn (suc call) _ _ stream s (none_polls (suc n)) =
      subst (λ p. InTurn (waiting_turn ∷ p.1.0) (came p.0 []))
        (sym (poll_at-all_waiting call n stream s)) (none_polls (suc n))
  poll_at-InTurn zero _ _ stream s (one_polls n) =
      turn_after-InTurn (poll_stream poll_next stream s).0 n
  poll_at-InTurn (suc call) _ _ stream s (one_polls n) =
      subst (λ p. InTurn (polling_turn ∷ p.1.0) (came p.0 []))
        (sym (poll_at-all_waiting call n stream s)) (one_polls n)
  poll_at-InTurn zero _ _ stream s (one_finished result q) = one_finished result q
  poll_at-InTurn (suc call) _ _ stream s
        (one_finished {turns = turns} {results = results} result q) =
      let (answer, left) = poll_at poll_next call true turns stream s in
      subst (λ r. InTurn (finished_turn result ∷ left.0) r) (sym (came-cons answer result results))
        (one_finished result (poll_at-InTurn call turns results stream s q))

  -- The streams that calls, polls of their futures in any order and closes reach, with the results
  -- in the order in which they came; between two of them anything may happen to the state.
  pub data Reachable : SharedStream X T → List (Option (Result T)) → Type 0 where
    starts : (stream : X) → Reachable (new_shared stream) []
    calls :
        {h : SharedStream X T} {results : List (Option (Result T))}
        → Reachable h results
        → Reachable (next_call h) results
    polls :
        {h : SharedStream X T} {results : List (Option (Result T))} (call : ℕ) (s : S)
        → Reachable h results
        → Reachable
            (poll_call poll_next call h s).1.0
            (came (poll_call poll_next call h s).0 results)
    closes :
        {h : SharedStream X T} {results : List (Option (Result T))} (borrowed : Bool)
        (type_name : Str)
        → Reachable h results
        → Reachable (close_shared borrowed type_name h).1 results

  closed-turns :
      (borrowed : Bool) (type_name : Str) (h : SharedStream X T)
      → (close_shared borrowed type_name h).1.turns ≡ h.turns
  unfolding close_shared
  closed-turns true type_name h = refl
  closed-turns false type_name h = refl

  -- In whatever order the futures of the calls are polled, and whenever the stream is closed: the
  -- calls get the results that the stream gives in the order in which they were made. The results,
  -- in the order in which they came, are those of the first calls, one for each; at most the call
  -- after them polls the stream, and every later one waits. No future is dropped before it is
  -- ready.
  pub Reachable-InTurn :
      (h : SharedStream X T) (results : List (Option (Result T)))
      → Reachable h results
      → InTurn h.turns results
  unfolding new_shared next_call poll_call
  Reachable-InTurn _ _ (starts stream) = none_polls 0
  Reachable-InTurn _ _ (calls {h = h} {results = results} reached) =
      push-InTurn h.turns results (Reachable-InTurn h results reached)
  Reachable-InTurn _ _ (polls {h = h} {results = results} call s reached) =
      poll_at-InTurn call h.turns results h.stream s (Reachable-InTurn h results reached)
  Reachable-InTurn _ _ (closes {h = h} {results = results} borrowed type_name reached) =
      subst (λ t. InTurn t results) (sym (closed-turns borrowed type_name h))
        (Reachable-InTurn h results reached)
