-- ===== src/Driver/HostFutures/Publication.antt =====
-- What a publication that succeeds has done for the promises of
-- crates/guestjs-core/src/driver/host_futures.rs.
use guestjs.Prelude.{ℕ, ◌≡◌, refl, sym, ap, ◌∙◌, inl, inr, List, [], ◌∷◌, arith, subst}
use guestjs.Errors.{Error, ok, err, Answer-cases}
use guestjs.Driver.HostFutures.{
  Settled, Engine, make, deliver, call_with, done, reject_with, publish_made, publish_one,
  publish_each, publish, State, with_futures,
}

module _ {S P : Type 0} (engine : Engine S P) where
  -- the function of a promise was attached and called with the argument
  pub record Delivered (function argument : ℕ) (s t : S) : Type 0 where
    pub attached : ℕ
    pub returned : ℕ
    pub between : S
    pub attach : engine.attach function s ≡ (ok attached, between)
    pub call : engine.call attached argument between ≡ (ok returned, t)

  -- a settled future has settled its promise: resolved with the value that it made, or rejected
  -- with the exception of the error that came in its place
  pub data Published (settled : Settled P) (s t : S) : Type 0 where
    resolved :
        (value : ℕ) (made : S)
        → make engine settled.outcome s ≡ (ok value, made)
        → Delivered settled.resolve value made t
        → Published settled s t
    rejected :
        (e : Error) (exception : ℕ) (made thrown : S)
        → make engine settled.outcome s ≡ (err e, made)
        → engine.new_exception e made ≡ (ok exception, thrown)
        → Delivered settled.reject exception thrown t
        → Published settled s t

  -- one after the other, in the order of the list
  pub data AllPublished : List (Settled P) → S → S → Type 0 where
    none_left : {s : S} → AllPublished [] s s
    one_more :
        {settled : Settled P} {rest : List (Settled P)} {r s t : S}
        → Published settled r s
        → AllPublished rest s t
        → AllPublished (settled ∷ rest) r t

  deliver_sound :
      (function argument : ℕ) (s t : S)
      → deliver engine function argument s ≡ (ok tt, t)
      → Delivered function argument s t
  unfolding deliver call_with done
  deliver_sound function argument s t h = elim (Answer-cases (engine.attach function s)) [
    | inl (f, u, e) ↦ elim (Answer-cases (engine.call f argument u)) [
      | inl (w, v, c) ↦
          let same : v ≡ t = ground arith in
          record {
            attached = f;
            returned = w;
            between = u;
            attach = e;
            call = c ∙ ap (λ x. (ok w, x)) same;
          }
      | inr (x, v, c) ↦ absurd (ground arith)
    ]
    | inr (x, u, e) ↦ absurd (ground arith)
  ]

  rejected_sound :
      (settled : Settled P) (e : Error) (s made t : S)
      → make engine settled.outcome s ≡ (err e, made)
      → reject_with engine settled (engine.new_exception e made) ≡ (ok tt, t)
      → Published settled s t
  unfolding reject_with
  rejected_sound settled e s made t m h = elim (Answer-cases (engine.new_exception e made)) [
    | inl (x, u, c) ↦
        rejected e x made u m c
          (deliver_sound settled.reject x u t (sym (ap (reject_with engine settled) c) ∙ h))
    | inr (x, u, c) ↦ absurd (ground arith)
  ]

  publish_one_sound :
      (settled : Settled P) (s t : S)
      → publish_one engine settled s ≡ (ok tt, t)
      → Published settled s t
  unfolding publish_one publish_made
  publish_one_sound settled s t h = elim (Answer-cases (make engine settled.outcome s)) [
    | inl (value, u, m) ↦
        resolved value u m
          (deliver_sound settled.resolve value u t (sym (ap (publish_made engine settled) m) ∙ h))
    | inr (e, u, m) ↦
        rejected_sound settled e s u t m (sym (ap (publish_made engine settled) m) ∙ h)
  ]

  publish_each_sound :
      (entries : List (Settled P)) (s t : S)
      → publish_each engine entries s ≡ (ok tt, t)
      → AllPublished entries s t
  unfolding publish_each
  publish_each_sound [] s t h =
      let same : s ≡ t = ground arith in subst (λ x. AllPublished [] s x) same none_left
  publish_each_sound (settled ∷ rest) s t h = elim (Answer-cases (publish_one engine settled s)) [
    | inl (value, u, p) ↦
        one_more (publish_one_sound settled s u (p ∙ refl))
          (publish_each_sound rest u t (ground (arith, p, h)))
    | inr (e, u, p) ↦ absurd (ground arith)
  ]

-- A publication that succeeds has settled the promise of every future that had settled, in the
-- order in which they settled: resolved with the value that the future made, or rejected with
-- the exception of its error. They were taken out of the list before the first promise.
pub publish_sound :
    {F P H : Type 0} (engine : Engine (State F P H) P) (m after : State F P H)
    → publish engine m ≡ (ok tt, after)
    → AllPublished engine
        (m.heap.futures.settled)
        (with_futures (record (m.heap.futures) { settled = [] }) m)
        after
unfolding publish
publish_sound engine m after h =
    publish_each_sound engine (m.heap.futures.settled)
      (with_futures (record (m.heap.futures) { settled = [] }) m) after h
