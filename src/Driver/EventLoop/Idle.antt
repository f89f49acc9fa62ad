-- ===== src/Driver/EventLoop/Idle.antt =====
-- What the answers of the event loop (crates/guestjs-core/src/driver/event_loop.rs) mean.
use guestjs.Prelude.{
  ◌≡◌, refl, sym, ap, ◌∙◌, Bool, true, false, Option, none, some, ◌⊎◌, inl, inr, arith, subst,
}
use guestjs.Errors.{Error, Result, ok, err, Answer-cases}
use guestjs.Policy.{ArmedPolicy, due_error}
use guestjs.Futures.{Poll, pending, ready}
use guestjs.Driver.HostFutures.{State, is_idle, has_settled, poll}
use guestjs.Driver.EventLoop.{
  Progress, progressed, waiting, idle, Runner, progress_of, publish_settled, run_jobs, progress,
  jobs_after, step, run_answer, run_due, run_poll,
}

-- What a progress says of a step: whether something was published, whether a future is left, and
-- what the engine answered.
abbrev pub Means : Progress → Bool → Bool → Poll Bool → Type 0
Means idle published no_future jobs =
    (published ≡ false) × (no_future ≡ true) × (jobs ≡ ready false)
Means waiting published no_future jobs =
    (published ≡ false) × ((no_future ≡ false) ⊎ (jobs ≡ pending))
Means progressed published no_future jobs = (published ≡ true) ⊎ (jobs ≡ ready true)

progress_of-Means :
    (published no_future : Bool) (jobs : Poll Bool)
    → Means (progress_of published no_future jobs) published no_future jobs
unfolding progress_of
progress_of-Means true no_future (ready true) = inl refl
progress_of-Means false no_future (ready true) = inr refl
progress_of-Means true no_future (ready false) = inl refl
progress_of-Means true no_future pending = inl refl
progress_of-Means false true (ready false) = (refl, refl, refl)
progress_of-Means false false (ready false) = (refl, inl refl)
progress_of-Means false no_future pending = (refl, inr refl)

module _ {F P H : Type 0} (runner : Runner F P H) where
  -- A step that has made this progress: what had settled was published, then the engine ran jobs,
  -- and the progress tells of the state after them.
  pub record Stepped (m : State F P H) (made : Progress) (after : State F P H) : Type 0 where
    pub between : State F P H
    pub jobs : Poll Bool
    pub published :
        publish_settled runner
          (has_settled ((poll runner.poll_future m).heap.futures))
          (poll runner.poll_future m)
        ≡ (ok tt, between)
    pub ran : run_jobs runner between ≡ (ok jobs, after)
    pub means :
        Means made
          (has_settled ((poll runner.poll_future m).heap.futures))
          (is_idle (after.heap.futures))
          jobs

  progress_sound :
      (m : State F P H) (between : State F P H) (published : Bool) (made : Progress)
      (after : State F P H)
      → progress runner published (run_jobs runner between) ≡ (ok made, after)
      → (jobs : Poll Bool) × (run_jobs runner between ≡ (ok jobs, after))
        × Means made published (is_idle (after.heap.futures)) jobs
  unfolding progress
  progress_sound m between published made after h = elim (Answer-cases (run_jobs runner between)) [
    | inl (jobs, u, e) ↦
        let same = sym (ap (progress runner published) e) ∙ h in
        let there : u ≡ after = ap (λ x. x.1) same in
        let named : progress_of published (is_idle (u.heap.futures)) jobs ≡ made =
          ground (arith, same) in
        (
          jobs,
          e ∙ ap (λ x. (ok jobs, x)) there,
          subst (λ x. Means made published (is_idle (x.heap.futures)) jobs) there
              (subst (λ x. Means x published (is_idle (u.heap.futures)) jobs) named
                (progress_of-Means published (is_idle (u.heap.futures)) jobs)),
        )
    | inr (x, u, e) ↦
        let same = sym (ap (progress runner published) e) ∙ h in absurd (ground (arith, same))
  ]

  -- What a step says of itself is true. It answers idle only if nothing had settled, no future is
  -- left and the engine had no job to run; waiting only if nothing was published and a future is
  -- left or the engine waits for a job; progressed only if something was published or a job ran.
  -- An error of the publication is not answered as a progress.
  pub step_sound :
      (m : State F P H) (made : Progress) (after : State F P H)
      → step runner m ≡ (ok made, after)
      → Stepped m made after
  unfolding step jobs_after
  step_sound m made after h =
      let polled = poll runner.poll_future m in
      let published = has_settled (polled.heap.futures) in
      elim (Answer-cases (publish_settled runner published polled)) [
        | inl (_, between, e) ↦
            let (jobs, ran, means) =
              progress_sound m between published made after
                (sym (ap (jobs_after runner published) e) ∙ h) in
            record { between = between; jobs = jobs; published = e; ran = ran; means = means }
        | inr (x, u, e) ↦
            let same = sym (ap (jobs_after runner published) e) ∙ h in absurd (ground (arith, same))
      ]

  -- what one poll of `run_until_idle` has done
  pub data Ran (armed : ArmedPolicy) (m : State F P H)
      : Poll (Result (Unit {0})) → Bool → State F P H → Type 0 where
    was_due : (e : Error) → due_error armed (m.world) ≡ some e → Ran armed m (ready (err e)) false m
    is_finished :
        {after : State F P H}
        → due_error armed (m.world) ≡ none
        → Stepped m idle after
        → Ran armed m (ready (ok tt)) false after
    has_woken :
        {after : State F P H}
        → due_error armed (m.world) ≡ none
        → Stepped m progressed after
        → Ran armed m pending true after
    has_to_wait :
        {after : State F P H}
        → due_error armed (m.world) ≡ none
        → Stepped m waiting after
        → Ran armed m pending false after
    has_failed :
        {after : State F P H} (e : Error)
        → due_error armed (m.world) ≡ none
        → step runner m ≡ (err e, after)
        → Ran armed m (ready (err e)) false after

  abbrev RanTo :
      ArmedPolicy → State F P H → (Poll (Result (Unit {0})) × Bool) × State F P H → Type 0
  RanTo armed m ((answer, woken), after) = Ran armed m answer woken after

  stepped-Ran :
      (armed : ArmedPolicy) (m : State F P H) (stepped : Result Progress × State F P H)
      → due_error armed (m.world) ≡ none
      → step runner m ≡ stepped
      → RanTo armed m (run_answer runner stepped)
  unfolding run_answer
  stepped-Ran armed m (ok idle, after) due e = is_finished due (step_sound m idle after e)
  stepped-Ran armed m (ok progressed, after) due e = has_woken due (step_sound m progressed after e)
  stepped-Ran armed m (ok waiting, after) due e = has_to_wait due (step_sound m waiting after e)
  stepped-Ran armed m (err x, after) due e = has_failed x due e

  due-Ran :
      (armed : ArmedPolicy) (m : State F P H) (due : Option Error)
      → due_error armed (m.world) ≡ due
      → RanTo armed m (run_due runner due m)
  unfolding run_due
  due-Ran armed m (some e) h = was_due e h
  due-Ran armed m none h = stepped-Ran armed m (step runner m) h refl

  -- A poll of `run_until_idle` that is ready with ok has made a step that found the guest idle, one
  -- that is ready with an error was due before it did anything, or the step failed with that
  -- error; one that is pending has woken its task after a step that made progress, and only after
  -- a step that has to wait, for a future or for the engine, it has not.
  pub run_poll-Ran :
      (armed : ArmedPolicy) (m after : State F P H) (answer : Poll (Result (Unit {0})))
      (woken : Bool)
      → run_poll runner armed m ≡ ((answer, woken), after)
      → Ran armed m answer woken after
  unfolding run_poll
  run_poll-Ran armed m after answer woken h =
      subst (RanTo armed m) h (due-Ran armed m (due_error armed (m.world)) refl)
