-- ===== src/Marshal/Args/Order.antt =====
-- No argument of a call (crates/guestjs-core/src/marshal/args.rs) is lost or read twice.
use guestjs.Prelude.{
  ℕ, zero, suc, ◌≡◌, refl, ap, ◌∙◌, List, [], ◌∷◌, ◌++◌, length, ◌+◌, ◌≤◌, ◌<◌, arith,
}
use guestjs.Marshal.Args.{
  RawCall, Args, or_absent, new_args, get_elem?, drop, advance, rest, advance_all,
}

next_shift : (i : ℕ) → suc i + 1 ≡ suc (i + 1)
next_shift i = omega arith

module _ {V : Type 0} where
  drop_step :
      (absent : V) (i : ℕ) (vs : List V)
      → i < length vs
      → or_absent absent (get_elem? i vs) ∷ drop (i + 1) vs ≡ drop i vs
  unfolding or_absent get_elem? drop
  drop_step absent i [] l = absurd (omega (arith, l))
  drop_step absent zero (v ∷ vs) l = refl
  drop_step absent (suc i) (v ∷ vs) l =
      let rest_of : drop (suc i + 1) (v ∷ vs) ≡ drop (i + 1) vs =
        ap (λ k. drop k (v ∷ vs)) (next_shift i) in
      ap (λ d. or_absent absent (get_elem? i vs) ∷ d) rest_of
      ∙ drop_step absent i vs (omega (arith, l))

  taken_rest :
      (n : ℕ) (a : Args V)
      → a.next + n ≤ length a.values
      → (advance_all n a).0 ++ (rest (advance_all n a).1).0 ≡ drop a.next a.values
  unfolding advance_all rest advance
  taken_rest zero a l = refl
  taken_rest (suc n) a l =
      ap (λ vs. or_absent a.absent (get_elem? a.next a.values) ∷ vs)
        (taken_rest n (record a { next = a.next + 1 }) (omega (arith, l)))
      ∙ drop_step a.absent a.next a.values (omega (arith, l))

  -- Where a function has at most as many parameters as the call has arguments, its parameters and
  -- what `rest` gives after them are the arguments of the call, each once and in order.
  pub advance_all-rest :
      (undefined : V) (call : RawCall V) (n : ℕ)
      → n ≤ length call.args
      → (advance_all n (new_args undefined call)).0
          ++ (rest (advance_all n (new_args undefined call)).1).0
        ≡ call.args
  unfolding new_args drop
  advance_all-rest undefined call n l = taken_rest n (new_args undefined call) (omega (arith, l))
