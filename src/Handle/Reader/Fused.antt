-- ===== src/Handle/Reader/Fused.antt =====
-- After its end or its release, a reader of crates/guestjs-core/src/handle/stream.rs leaves the
-- guest alone, and a promise is only awaited while the reader is open.
use guestjs.Prelude.{
  ◌≡◌, refl, sym, ap, ◌∙◌, ◌≢◌, Option, none, some, List, [], ◌∷◌, subst, map, arith,
}
use guestjs.Errors.{Result, ok, err, unexpected, literal}
use guestjs.Futures.{Poll, pending, ready}
use guestjs.Handle.Reader.{
  ReaderPhase, reader_open, reader_done, reader_released, ReaderObject, Reader, new_reader, read,
  keep_read, start_read, poll_read, poll_or_start, read_in, released_by, release_lock,
}

abbrev pub Awaits : {F : Type 0} → Reader F → Type 0
Awaits r = r.phase ≢ reader_open → r.pending ≡ none

module _ {S F T : Type 0} (object : ReaderObject S F T) where
  -- The readers that the operations reach, with the guest's states; between two of them the guest
  -- may act by itself.
  pub data Reachable : Reader F → S → Type 0 where
    fresh : (s : S) → Reachable new_reader s
    moved : {r : Reader F} {s : S} (t : S) → Reachable r s → Reachable r t
    polled :
        {r q : Reader F} {s t : S} {answer : Poll (Result (Option T))}
        → Reachable r s
        → read object r s ≡ (answer, (q, t))
        → Reachable q t
    unlocked :
        {r q : Reader F} {s t : S} {result : Result (Unit {0})}
        → Reachable r s
        → release_lock object r s ≡ (result, (q, t))
        → Reachable q t

  keep_read-Awaits :
      (answer : Poll (Result (Option T))) (f : F) (r : Reader F)
      → r.phase ≡ reader_open
      → Awaits (keep_read object answer f r)
  unfolding keep_read
  keep_read-Awaits pending f r e away = absurd (away e)
  keep_read-Awaits (ready (ok (some chunk))) f r e away = refl
  keep_read-Awaits (ready (ok none)) f r e away = refl
  keep_read-Awaits (ready (err x)) f r e away = refl

  start_read-Awaits :
      (r : Reader F) (called : Result F × S)
      → r.phase ≡ reader_open
      → r.pending ≡ none
      → Awaits ((start_read object r called).1.0)
  unfolding start_read poll_read
  start_read-Awaits r (ok f, s) e n =
      let (answer, left) = object.poll_future f s in keep_read-Awaits answer left.0 r e
  start_read-Awaits r (err x, s) e n = λ away. n

  poll_or_start-Awaits :
      (r : Reader F) (p : Option F) (s : S)
      → r.phase ≡ reader_open
      → r.pending ≡ p
      → Awaits ((poll_or_start object r p s).1.0)
  unfolding poll_or_start poll_read
  poll_or_start-Awaits r none s e n = start_read-Awaits r (object.call_read s) e n
  poll_or_start-Awaits r (some f) s e n =
      let (answer, left) = object.poll_future f s in keep_read-Awaits answer left.0 r e

  read_in-Awaits :
      (phase : ReaderPhase) (r : Reader F) (s : S)
      → r.phase ≡ phase
      → Awaits r
      → Awaits ((read_in object phase r s).1.0)
  unfolding read_in
  read_in-Awaits reader_open r s e v = poll_or_start-Awaits r r.pending s e refl
  read_in-Awaits reader_done r s e v = v
  read_in-Awaits reader_released r s e v = v

  released_by-Awaits :
      (r : Reader F) (called : Result (Unit {0}) × S)
      → Awaits r
      → Awaits ((released_by object r called).1.0)
  unfolding released_by
  released_by-Awaits r (ok _, s) v = λ away. refl
  released_by-Awaits r (err e, s) v = v

  -- However reads, releases and moves of the guest follow one another, a reader that is done or
  -- released holds no promise.
  pub Reachable-Awaits : (r : Reader F) (s : S) → Reachable r s → Awaits r
  unfolding read release_lock new_reader
  Reachable-Awaits r s (fresh _) = λ away. refl
  Reachable-Awaits r s (moved {s = before} t reached) = Reachable-Awaits r before reached
  Reachable-Awaits r s (polled {r = q} {s = before} reached h) =
      subst Awaits (ap (λ x. x.1.0) h)
        (read_in-Awaits q.phase q before refl (Reachable-Awaits q before reached))
  Reachable-Awaits r s (unlocked {r = q} {s = before} reached h) =
      subst Awaits (ap (λ x. x.1.0) h)
        (released_by-Awaits q (object.call_release_lock before) (Reachable-Awaits q before reached))

  -- What reads one after the other give, with the reader and the guest after them.
  pub data Reads : Reader F → S → List (Poll (Result (Option T))) → Reader F → S → Type 0 where
    no_read : {r : Reader F} {s : S} → Reads r s [] r s
    one_read :
        {r q p : Reader F} {s t u : S} {answer : Poll (Result (Option T))}
        {answers : List (Poll (Result (Option T)))}
        → read object r s ≡ (answer, (q, t))
        → Reads q t answers p u
        → Reads r s (answer ∷ answers) p u

  -- every answer is the same, and neither the reader nor the guest has changed
  pub record Unmoved (answer : Poll (Result (Option T))) (r : Reader F) (s : S)
      (answers : List (Poll (Result (Option T)))) (q : Reader F) (t : S) : Type 0 where
    pub answers_same : answers ≡ map (λ x. answer) answers
    pub reader_same : q ≡ r
    pub guest_same : t ≡ s

  Reads-Unmoved :
      (answer : Poll (Result (Option T))) (r : Reader F) (s : S)
      → read object r s ≡ (answer, (r, s))
      → (answers : List (Poll (Result (Option T)))) (q : Reader F) (t : S) → Reads r s answers q t
      → Unmoved answer r s answers q t
  Reads-Unmoved answer r s still _ q t no_read = record {
    answers_same = refl;
    reader_same = refl;
    guest_same = refl;
  }
  Reads-Unmoved answer r s still _ q t
        (one_read {q = p} {t = u} {answer = x} {answers = answers} h rest) =
      let at : (answer, (r, s)) ≡ (x, (p, u)) = sym still ∙ h in
      let next =
        Reads-Unmoved answer p u
          (ap (read object p) (ap (λ y. y.1.1) (sym at))
            ∙ (ap (λ y. read object y s) (ap (λ y. y.1.0) (sym at))
                ∙ (still ∙ ap (λ y. (answer, y.1)) at)))
          answers q t rest in
      record {
        answers_same = ap (λ y. y.0 ∷ answers) (sym at) ∙ ap (λ y. answer ∷ y) next.answers_same;
        reader_same = next.reader_same ∙ ap (λ y. y.1.0) (sym at);
        guest_same = next.guest_same ∙ ap (λ y. y.1.1) (sym at);
      }

  -- a read that is ready without a chunk leaves a reader that is done
  abbrev EndsDone : Poll (Result (Option T)) × (Reader F × S) → Type 0
  EndsDone (ready (ok none), (q, t)) = q.phase ≡ reader_done
  EndsDone (ready (err e), (q, t)) = q.phase ≡ reader_done
  EndsDone (answer, (q, t)) = Unit {0}

  keep_read-EndsDone :
      (answer : Poll (Result (Option T))) (f : F) (r : Reader F) (t : S)
      → EndsDone (answer, (keep_read object answer f r, t))
  unfolding keep_read
  keep_read-EndsDone pending f r t = tt
  keep_read-EndsDone (ready (ok (some chunk))) f r t = tt
  keep_read-EndsDone (ready (ok none)) f r t = refl
  keep_read-EndsDone (ready (err e)) f r t = refl

  poll_read-EndsDone : (r : Reader F) (f : F) (s : S) → EndsDone (poll_read object r f s)
  unfolding poll_read
  poll_read-EndsDone r f s =
      let (answer, left) = object.poll_future f s in keep_read-EndsDone answer left.0 r left.1

  start_read-EndsDone :
      (r : Reader F) (called : Result F × S) → EndsDone (start_read object r called)
  unfolding start_read
  start_read-EndsDone r (ok f, s) = poll_read-EndsDone r f s
  start_read-EndsDone r (err e, s) = refl

  poll_or_start-EndsDone :
      (r : Reader F) (p : Option F) (s : S) → EndsDone (poll_or_start object r p s)
  unfolding poll_or_start
  poll_or_start-EndsDone r none s = start_read-EndsDone r (object.call_read s)
  poll_or_start-EndsDone r (some f) s = poll_read-EndsDone r f s

  read-open : (r : Reader F) (s : S) → r.phase ≡ reader_open → EndsDone (read object r s)
  unfolding read read_in
  read-open r s e =
      subst (λ x. EndsDone (read_in object x r s)) (sym e) (poll_or_start-EndsDone r r.pending s)

  ready-done :
      (result : Result (Option T)) (q : Reader F) (t : S)
      → EndsDone (ready result, (q, t))
      → ((chunk : T) → result ≢ ok (some chunk))
      → q.phase ≡ reader_done
  ready-done (err e) q t ends last = ends
  ready-done (ok none) q t ends last = ends
  ready-done (ok (some chunk)) q t ends last = absurd (last chunk refl)

  -- Once an open reader gave the end of the stream or an error, every later read gives the end at
  -- once, and neither the reader nor the guest changes: nothing more is called in the guest.
  pub read-Unmoved :
      (r q p : Reader F) (s t u : S) (result : Result (Option T))
      (answers : List (Poll (Result (Option T))))
      → r.phase ≡ reader_open
      → read object r s ≡ (ready result, (q, t))
      → ((chunk : T) → result ≢ ok (some chunk))
      → Reads q t answers p u
      → Unmoved (ready (ok none)) q t answers p u
  unfolding read read_in
  read-Unmoved r q p s t u result answers e h last later =
      let done : q.phase ≡ reader_done =
        ready-done result q t (subst EndsDone h (read-open r s e)) last in
      Reads-Unmoved (ready (ok none)) q t (ap (λ x. read_in object x q t) done) answers p u later

  released_by-phase :
      (r q : Reader F) (called : Result (Unit {0}) × S) (t : S)
      → released_by object r called ≡ (ok tt, (q, t))
      → q.phase ≡ reader_released
  unfolding released_by
  released_by-phase r q (ok _, s) t h = sym (ap (λ x. x.1.0.phase) h)
  released_by-phase r q (err e, s) t h = absurd (ground arith)

  -- Once the lock was released, every later read is refused at once, and neither the reader nor the
  -- guest changes.
  pub release_lock-Unmoved :
      (r q p : Reader F) (s t u : S) (answers : List (Poll (Result (Option T))))
      → release_lock object r s ≡ (ok tt, (q, t))
      → Reads q t answers p u
      → Unmoved (ready (err (unexpected (literal "reader lock was released")))) q t answers p u
  unfolding read read_in release_lock
  release_lock-Unmoved r q p s t u answers h later =
      let gone : q.phase ≡ reader_released =
        released_by-phase r q (object.call_release_lock s) t h in
      Reads-Unmoved (ready (err (unexpected (literal "reader lock was released")))) q t
        (ap (λ x. read_in object x q t) gone) answers p u later
