-- ===== src/Text/Split.antt =====
-- `split` and `join` undo one another, and `rsplit_once` cuts off the last piece.
use guestjs.Prelude.{
  ℕ, ◌≡◌, refl, ap, sym, ◌∙◌, ◌≢◌, inl, inr, true, false, not, none, some, List, [], ◌∷◌, ◌++◌,
  append_assoc, arith, ◌==◌, Bool-cases, all, push,
}
use guestjs.Text.{Str, split, cons_head, join, rsplit_once, contains}

-- no piece holds the separator
abbrev pub IsCut : ℕ → List Str → Type 0
IsCut c ps = all (λ p. not (contains c p)) ps ≡ true

pub split-no_sep : (c : ℕ) (s : Str) → contains c s ≡ false → split c s ≡ s ∷ []
unfolding split contains
split-no_sep c [] h = refl
split-no_sep c (x ∷ s) h = ground (arith, split-no_sep c s)

pub split-append :
    (c : ℕ) (s t : Str) → contains c s ≡ false → split c (s ++ (c ∷ t)) ≡ s ∷ split c t
unfolding split contains
split-append c [] t h = ground arith
split-append c (x ∷ s) t h = ground (arith, split-append c s t)

-- Pieces without the separator survive joining and splitting.
pub split-join :
    (c : ℕ) (p : Str) (ps : List Str) → IsCut c (p ∷ ps) → split c (join c (p ∷ ps)) ≡ p ∷ ps
unfolding join
split-join c p [] h = split-no_sep c p (ground arith)
split-join c p (q ∷ ps) h =
    split-append c p (join c (q ∷ ps)) (ground arith)
    ∙ ap (λ r. p ∷ r) (split-join c q ps (ground arith))

pub split_ne : (c : ℕ) (s : Str) → split c s ≢ []
unfolding split
split_ne c [] h = cc
split_ne c (x ∷ s) h = ground arith

join-cons : (c : ℕ) (p : Str) (ps : List Str) → ps ≢ [] → join c (p ∷ ps) ≡ p ++ (c ∷ join c ps)
unfolding join
join-cons c p [] h = absurd (h refl)
join-cons c p (q ∷ ps) h = refl

join-cons_head : (c x : ℕ) (ps : List Str) → ps ≢ [] → join c (cons_head x ps) ≡ x ∷ join c ps
unfolding join cons_head
join-cons_head c x [] h = absurd (h refl)
join-cons_head c x (q ∷ []) h = refl
join-cons_head c x (q ∷ r ∷ ps) h = refl

pub join-split : (c : ℕ) (s : Str) → join c (split c s) ≡ s
unfolding split join
join-split c [] = refl
join-split c (x ∷ s) = ground (
  arith,
  join-split c s,
  join-cons c [] (split c s) (split_ne c s),
  join-cons_head c x (split c s) (split_ne c s),
)

cons_head-IsCut :
    (c x : ℕ) (ps : List Str) → (x == c) ≡ false → IsCut c ps → IsCut c (cons_head x ps)
unfolding cons_head contains
cons_head-IsCut c x [] n h = ground arith
cons_head-IsCut c x (p ∷ ps) n h = ground arith

pub split-IsCut : (c : ℕ) (s : Str) → IsCut c (split c s)
unfolding split contains
split-IsCut c [] = refl
split-IsCut c (x ∷ s) = elim (Bool-cases (x == c)) [
  | inl e ↦ rw e (split-IsCut c s)
  | inr n ↦ rw n (cons_head-IsCut c x (split c s) n (split-IsCut c s))
]

rsplit_once-no_sep : (c : ℕ) (s : Str) → contains c s ≡ false → rsplit_once c s ≡ none
unfolding rsplit_once contains
rsplit_once-no_sep c [] h = refl
rsplit_once-no_sep c (x ∷ s) h = ground (arith, rsplit_once-no_sep c s)

pub rsplit_once-append :
    (c : ℕ) (s t : Str) → contains c t ≡ false → rsplit_once c (s ++ (c ∷ t)) ≡ some (s, t)
unfolding rsplit_once
rsplit_once-append c [] t h = ground (arith, rsplit_once-no_sep c t h)
rsplit_once-append c (x ∷ s) t h = ground (arith, rsplit_once-append c s t h)

pub join-push :
    (c : ℕ) (p : Str) (ps : List Str) (q : Str)
    → join c (push (p ∷ ps) q) ≡ join c (p ∷ ps) ++ (c ∷ q)
unfolding join
join-push c p [] q = refl
join-push c p (r ∷ ps) q =
    rw (join-push c r ps q) (sym (append_assoc p (c ∷ join c (r ∷ ps)) (c ∷ q)))
