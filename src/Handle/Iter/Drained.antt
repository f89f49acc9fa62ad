-- ===== src/Handle/Iter/Drained.antt =====
-- What an iterator of crates/guestjs-core/src/handle/iter.rs gives of a guest's iterator that ends.
use guestjs.Prelude.{
  length, ℕ, ◌≡◌, refl, ap, ◌∙◌, true, Option, none, some, List, [], ◌∷◌, ◌++◌, map, zero, suc,
  arith, ◌+◌,
}
use guestjs.Errors.{Error, Result, ok, err}
use guestjs.Handle.Iter.{
  IteratorObject, Iter, new_iter, transpose, is_last, next_in, next, close_in, close_iter,
}

module _ {S T : Type 0} (object : IteratorObject S T) where
  -- The guest's iterator gives these items, and then stops or throws.
  pub data Gives : S → List T → Option Error → S → Type 0 where
    stops : {s t : S} → object.step s ≡ (ok none, t) → Gives s [] none t
    throws : {s t : S} (e : Error) → object.step s ≡ (err e, t) → Gives s [] (some e) t
    gives :
        {s t u : S} {items : List T} {thrown : Option Error} (item : T)
        → object.step s ≡ (ok (some item), t)
        → Gives t items thrown u
        → Gives s (item ∷ items) thrown u

  abbrev pub add_item : Option (Result T) → List (Result T) → List (Result T)
  add_item none items = items
  add_item (some item) items = item ∷ items

  -- the items of so many calls of `next`
  abbrev pub collect : ℕ → Iter → S → List (Result T) × (Iter × S)
  collect zero it s = ([], (it, s))
  collect (suc calls) it s =
      let (item, left) = next object it s in
      let (items, after) = collect calls left.0 left.1 in (add_item item items, after)

  abbrev pub thrown_item : Option Error → List (Result T)
  thrown_item none = []
  thrown_item (some e) = err e ∷ []

  abbrev drained : Iter
  drained = record { done = true }

  collect-drained : (calls : ℕ) (s : S) → collect calls drained s ≡ ([], (drained, s))
  unfolding next next_in
  collect-drained zero s = refl
  collect-drained (suc calls) s = ap (λ x. (add_item none x.0, x.1)) (collect-drained calls s)

  first_call :
      (calls : ℕ) (s t : S) (step : Result (Option T))
      → object.step s ≡ (step, t)
      → collect (suc calls) new_iter s ≡ (
          let (items, after) = collect calls (record { done = is_last step }) t in
          (add_item (transpose step) items, after))
  unfolding next next_in new_iter
  first_call calls s t step h =
      ap
        (λ p.
          let (items, after) = collect calls (record { done = is_last p.0 }) p.1 in
          (add_item (transpose p.0) items, after))
        h

  -- An iterator over a guest's iterator that gives finitely many items, called at least once more
  -- than there are items, gives each of them in order, then the error if one was thrown, and then
  -- nothing however often it is called; the guest is called no more, not even by `close`.
  pub collect-Gives :
      (s t : S) (items : List T) (thrown : Option Error) (more : ℕ)
      → Gives s items thrown t
      → (collect (suc (length items + more)) new_iter s
          ≡ (map ok items ++ thrown_item thrown, (drained, t)))
        × (close_iter object drained t ≡ (ok tt, t))
  unfolding next next_in new_iter transpose close_iter close_in is_last
  collect-Gives s t _ _ more (stops h) = (
    first_call (0 + more) s t (ok none) h ∙ ap (λ x. (x.0, x.1)) (collect-drained (0 + more) t),
    refl,
  )
  collect-Gives s t _ _ more (throws e h) = (
    first_call (0 + more) s t (err e) h
        ∙ ap (λ x. (err e ∷ x.0, x.1)) (collect-drained (0 + more) t),
    refl,
  )
  collect-Gives s t _ _ more (gives {t = u} {items = items} item h rest) =
      let shift : suc (length items) + more ≡ suc (length items + more) = omega arith in
      (
        ap (λ n. collect (suc n) new_iter s) shift
            ∙ first_call (suc (length items + more)) s u (ok (some item)) h
            ∙ ap (λ x. (ok item ∷ x.0, x.1)) ((collect-Gives u t items _ more rest).0),
        refl,
      )
