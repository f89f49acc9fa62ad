-- ===== src/Handle/Reader/Delivery.antt =====
-- What a reader of crates/guestjs-core/src/handle/stream.rs delivers of a stream that ends.
use guestjs.Prelude.{
  ℕ, ◌≡◌, refl, sym, ap, ◌∙◌, Option, none, some, List, [], ◌∷◌, ◌<◌, ◌+◌, subst, zero, suc, arith,
}
use guestjs.Errors.{Result, ok, err}
use guestjs.Futures.{Poll, pending, ready}
use guestjs.Handle.Reader.{
  ReaderPhase, reader_open, reader_done, ReaderObject, Reader, new_reader, read, keep_read,
  start_read, poll_read,
}

-- What one poll of a promise of the stream does, where the stream has the chunks `items` left:
-- it waits, with fewer polls to come, gives the next chunk, or says that there is none.
pub data Fetching {S F T : Type 0} (object : ReaderObject S F T) (items : S → List T)
    (waiting : F → S → List T) (delay : F → S → ℕ) (f : F) (s : S) : Type 0 where
  waits :
      (g : F) (t : S)
      → object.poll_future f s ≡ (pending, (g, t))
      → delay g t < delay f s
      → waiting g t ≡ waiting f s
      → Fetching object items waiting delay f s
  gives :
      (chunk : T) (g : F) (t : S)
      → object.poll_future f s ≡ (ready (ok (some chunk)), (g, t))
      → waiting f s ≡ chunk ∷ items t
      → Fetching object items waiting delay f s
  ends :
      (g : F) (t : S)
      → object.poll_future f s ≡ (ready (ok none), (g, t))
      → waiting f s ≡ []
      → Fetching object items waiting delay f s

-- A stream of the guest that delivers finitely many chunks, each after finitely many polls.
pub record Stream {S F T : Type 0} (object : ReaderObject S F T) : Type 0 where
  pub items : S → List T
  -- the chunks left from the one that a promise awaits
  pub waiting : F → S → List T
  pub delay : F → S → ℕ
  pub calls :
      (s : S) → (f : F) × (t : S) × (object.call_read s ≡ (ok f, t)) × (waiting f t ≡ items s)
  pub polls : (f : F) (s : S) → Fetching object items waiting delay f s

module _ {S F T : Type 0} (object : ReaderObject S F T) where
  -- Finitely many reads, one after the other, deliver these chunks without an error, and the
  -- last one says that the stream has ended.
  pub data Delivers : Reader F → S → List T → Type 0 where
    reads_pending :
        {r q : Reader F} {s t : S} {chunks : List T}
        → read object r s ≡ (pending, (q, t))
        → Delivers q t chunks
        → Delivers r s chunks
    reads_chunk :
        {r q : Reader F} {s t : S} {chunks : List T} (chunk : T)
        → read object r s ≡ (ready (ok (some chunk)), (q, t))
        → Delivers q t chunks
        → Delivers r s (chunk ∷ chunks)
    reads_end :
        {r q : Reader F} {s t : S}
        → read object r s ≡ (ready (ok none), (q, t))
        → q.phase ≡ reader_done
        → Delivers r s []

  same_read :
      (r q : Reader F) (s t : S) (chunks : List T)
      → read object r s ≡ read object q t
      → Delivers q t chunks
      → Delivers r s chunks
  same_read r q s t _ e (reads_pending h rest) = reads_pending (e ∙ h) rest
  same_read r q s t _ e (reads_chunk chunk h rest) = reads_chunk chunk (e ∙ h) rest
  same_read r q s t _ e (reads_end h closed) = reads_end (e ∙ h) closed

  abbrev fetching : F → Reader F
  fetching f = record { pending = some f; phase = reader_open }

  keep_read-fetching :
      (answer : Poll (Result (Option T))) (f g : F)
      → keep_read object answer g new_reader ≡ keep_read object answer g (fetching f)
  unfolding keep_read new_reader
  keep_read-fetching pending f g = refl
  keep_read-fetching (ready (ok (some chunk))) f g = refl
  keep_read-fetching (ready (ok none)) f g = refl
  keep_read-fetching (ready (err e)) f g = refl

  -- A read with no promise calls for one and polls it at once.
  read-new_reader :
      (s t : S) (f : F)
      → object.call_read s ≡ (ok f, t)
      → read object new_reader s ≡ read object (fetching f) t
  unfolding read guestjs.Handle.Reader.read_in guestjs.Handle.Reader.poll_or_start start_read
      poll_read new_reader
  read-new_reader s t f e =
      let (answer, left) = object.poll_future f t in
      ap (start_read object new_reader) e
      ∙ ap (λ q. (answer, (q, left.1))) (keep_read-fetching answer f left.0)

  read-fetching :
      (f g : F) (s t : S) (answer : Poll (Result (Option T)))
      → object.poll_future f s ≡ (answer, (g, t))
      → read object (fetching f) s ≡ (answer, (keep_read object answer g (fetching f), t))
  unfolding read guestjs.Handle.Reader.read_in guestjs.Handle.Reader.poll_or_start poll_read
  read-fetching f g s t answer e =
      ap (λ p. (p.0, (keep_read object p.0 p.1.0 (fetching f), p.1.1))) e

module _ {S F T : Type 0} (object : ReaderObject S F T) (stream : Stream object) where
  -- With the deliveries of what follows the first chunk, a promise delivers what it awaits.
  fetching-Delivers :
      (chunks : List T)
      → ((t : S) (first : T)
          → chunks ≡ first ∷ stream.items t
          → Delivers object new_reader t (stream.items t))
      → (polls : ℕ) (f : F) (s : S) → stream.delay f s < polls
      → stream.waiting f s ≡ chunks
      → Delivers object (fetching object f) s chunks
  unfolding keep_read new_reader
  fetching-Delivers chunks shorter zero f s bound e = absurd (omega (arith, bound))
  fetching-Delivers chunks shorter (suc polls) f s bound e = elim (stream.polls f s) [
    | waits g t p less same ↦
        reads_pending (read-fetching object f g s t pending p)
          (fetching-Delivers chunks shorter polls g t (omega (arith, less, bound)) (same ∙ e))
    | gives chunk g t p same ↦
        let split : chunks ≡ chunk ∷ stream.items t = sym e ∙ same in
        subst (λ x. Delivers object (fetching object f) s x) (sym split)
          (reads_chunk chunk (read-fetching object f g s t (ready (ok (some chunk))) p)
            (shorter t chunk split))
    | ends g t p same ↦
        subst (λ x. Delivers object (fetching object f) s x) (sym same ∙ e)
          (reads_end (read-fetching object f g s t (ready (ok none)) p) refl)
  ]

  open_reader :
      (chunks : List T)
      → ((t : S) (first : T)
          → chunks ≡ first ∷ stream.items t
          → Delivers object new_reader t (stream.items t))
      → (s : S) → stream.items s ≡ chunks
      → Delivers object new_reader s chunks
  open_reader chunks shorter s e =
      let (f, t, call, same) = stream.calls s in
      same_read object new_reader (fetching object f) s t chunks (read-new_reader object s t f call)
        (fetching-Delivers chunks shorter (stream.delay f t + 1) f t (omega arith) (same ∙ e))

  all_chunks :
      (chunks : List T) (s : S) → stream.items s ≡ chunks → Delivers object new_reader s chunks
  all_chunks [] s e = open_reader [] (λ t first h. absurd (ground arith)) s e
  all_chunks (chunk ∷ chunks) s e =
      open_reader (chunk ∷ chunks)
        (λ t first h.
          let same : stream.items t ≡ chunks = ground arith in
          subst (λ x. Delivers object new_reader t x) (sym same) (all_chunks chunks t same))
        s e

  -- A new reader of a stream that has finitely many chunks, each ready after finitely many polls,
  -- delivers all of them in their order, once each, and is then done, after finitely many reads.
  pub new_reader-Delivers : (s : S) → Delivers object new_reader s (stream.items s)
  new_reader-Delivers s = all_chunks (stream.items s) s refl
