-- ===== src/Bundle/Utf8.antt =====
-- `std::str::from_utf8`: the well-formed byte sequences of the Unicode standard (table 3-7).
use guestjs.Prelude.{
  ℕ, zero, suc, ◌≡◌, refl, ◌+◌, ◌-◌, ◌*◌, Bool, ◌&&◌, Option, none, some, List, [], ◌∷◌, leb,
  if◌then◌else◌,
}
use guestjs.Text.{Str}

abbrev between : ℕ → ℕ → ℕ → Bool
between lo hi b = leb lo b && leb b hi

abbrev prepend : ℕ → Option Str → Option Str
prepend c none = none
prepend c (some s) = some (c ∷ s)

-- How many bytes a sequence still lacks, the range of the next one, and the bits read so far.
abbrev Pending : Type 0
Pending = ℕ × ℕ × ℕ × ℕ

-- what the first byte of a sequence announces
lead : ℕ → Option Pending
lead b =
    if leb b 127
    then some (0, 128, 191, b)
    else if between 194 223 b
    then some (1, 128, 191, b - 192)
    else if between 224 224 b
    then some (2, 160, 191, 0)
    else if between 237 237 b
    then some (2, 128, 159, 13)
    else if between 225 239 b
    then some (2, 128, 191, b - 224)
    else if between 240 240 b
    then some (3, 144, 191, 0)
    else if between 241 243 b
    then some (3, 128, 191, b - 240)
    else if between 244 244 b
    then some (3, 128, 143, 4)
    else none

decode : Option Pending → List ℕ → Option Str
unfolding lead
decode none s = none
decode (some (zero, lo, hi, acc)) [] = some (acc ∷ [])
decode (some (suc n, lo, hi, acc)) [] = none
decode (some (zero, lo, hi, acc)) (b ∷ s) = prepend acc (decode (lead b) s)
decode (some (suc n, lo, hi, acc)) (b ∷ s) =
    decode (if between lo hi b then some (n, 128, 191, acc * 64 + (b - 128)) else none) s

-- the code points of the bytes, or `none` where they are not UTF-8
unfoldable pub from_utf8 : List ℕ → Option Str
unfolding decode
from_utf8 [] = some []
from_utf8 (b ∷ s) = decode (lead b) s

-- "é€😀" and an encoded surrogate
from_utf8_test :
    from_utf8 (195 ∷ 169 ∷ 226 ∷ 130 ∷ 172 ∷ 240 ∷ 159 ∷ 152 ∷ 128 ∷ 65 ∷ [])
    ≡ some (233 ∷ 8364 ∷ 128512 ∷ 65 ∷ [])
unfolding from_utf8
from_utf8_test = refl

surrogate_test : from_utf8 (237 ∷ 160 ∷ 128 ∷ []) ≡ none
unfolding from_utf8
surrogate_test = refl
