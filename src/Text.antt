-- ===== src/Text.antt =====
-- The `str` operations that the code uses, over lists of code points: `Str` is a Rust string.
-- Every separator is ASCII, so cutting code points and cutting UTF-8 bytes agree.
pub mod Split
pub mod Order
pub mod Affix
use Prim.Native.Char.{code}
use guestjs.Prelude.{
  ℕ, String, Bool, true, false, ◌&&◌, Option, none, some, List, [], ◌∷◌, ◌++◌, ◌==◌, is_some,
  if◌then◌else◌,
}

abbrev pub Str : Type 0
Str = List ℕ

-- The code points of a text literal.
abbrev pub codes : String → Str
codes String.[] = []
codes (String.◌∷◌ c s) = code c ∷ codes s

unfoldable pub str_eq : Str → Str → Bool
str_eq [] [] = true
str_eq [] (_ ∷ _) = false
str_eq (_ ∷ _) [] = false
str_eq (x ∷ s) (y ∷ t) = x == y && str_eq s t

abbrev pub is_empty {ℓ} : {A : Type ℓ} → List A → Bool
is_empty [] = true
is_empty (_ ∷ _) = false

cons_head : ℕ → List Str → List Str
cons_head x [] = (x ∷ []) ∷ []
cons_head x (p ∷ ps) = (x ∷ p) ∷ ps

-- `split(c)`: at least one piece, with the empty ones
unfoldable pub split : ℕ → Str → List Str
unfolding cons_head
split c [] = [] ∷ []
split c (x ∷ s) = let rest = split c s in if x == c then [] ∷ rest else cons_head x rest

-- `join`, with a separator of one character
unfoldable pub join : ℕ → List Str → Str
join c [] = []
join c (p ∷ []) = p
join c (p ∷ q ∷ ps) = p ++ (c ∷ join c (q ∷ ps))

-- `rsplit_once(c)`: around the last `c`
unfoldable pub rsplit_once : ℕ → Str → Option (Str × Str)
rsplit_once c [] = none
rsplit_once c (x ∷ s) = elim (rsplit_once c s) [
  | some (a, b) ↦ some (x ∷ a, b)
  | none ↦ if x == c then some ([], s) else none
]

unfoldable pub strip_prefix : Str → Str → Option Str
strip_prefix [] s = some s
strip_prefix (p ∷ ps) [] = none
strip_prefix (p ∷ ps) (x ∷ s) = let rest = strip_prefix ps s in if p == x then rest else none

unfoldable pub starts_with : Str → Str → Bool
unfolding strip_prefix
starts_with p s = is_some (strip_prefix p s)

abbrev pub prepend : ℕ → Option Str → Option Str
prepend x none = none
prepend x (some s) = some (x ∷ s)

unfoldable pub strip_suffix : Str → Str → Option Str
unfolding str_eq
strip_suffix p [] = if str_eq [] p then some [] else none
strip_suffix p (x ∷ s) =
    let rest = strip_suffix p s in if str_eq (x ∷ s) p then some [] else prepend x rest

-- `ends_with(c)`
unfoldable pub ends_with : ℕ → Str → Bool
ends_with c [] = false
ends_with c (x ∷ []) = x == c
ends_with c (x ∷ y ∷ s) = ends_with c (y ∷ s)

-- `contains(c)`
unfoldable pub contains : ℕ → Str → Bool
contains c [] = false
contains c (x ∷ s) = let rest = contains c s in if x == c then true else rest

abbrev pub slash : ℕ
slash = b'/'

abbrev pub backslash : ℕ
backslash = 92
