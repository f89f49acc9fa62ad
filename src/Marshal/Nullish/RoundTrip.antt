-- ===== src/Marshal/Nullish/RoundTrip.antt =====
-- What crates/guestjs-core/src/marshal/nullish.rs gives to a guest and takes back.
use guestjs.Prelude.{◌≡◌, ◌≢◌, ap, ◌∙◌, subst, arith}
use guestjs.Errors.{Result, ok}
use guestjs.Marshal.Nullish.{
  Nullish, undefined, null, present, Kind, undefined_kind, null_kind, Values, to_guest, from_guest,
  of_kind,
}

present_kind :
    {V T : Type 0} (engine : Values V) (value : T) (k : Kind)
    → k ≢ undefined_kind
    → k ≢ null_kind
    → of_kind engine (ok value) k ≡ ok (present value)
unfolding of_kind
present_kind engine value k u n = ground arith

-- A nullish value that a guest is given comes back as itself, when the engine makes the two absent
-- values with their kinds, and the conversion of what is inside makes no absent value and
-- takes back what it has made.
pub from_guest-to_guest :
    {V T : Type 0} (engine : Values V) (inner : T → Result V) (outer : V → Result T)
    → engine.kind engine.new_undefined ≡ undefined_kind
    → engine.kind engine.new_null ≡ null_kind
    → ((value : T) (v : V) → inner value ≡ ok v → engine.kind v ≢ undefined_kind)
    → ((value : T) (v : V) → inner value ≡ ok v → engine.kind v ≢ null_kind)
    → ((value : T) (v : V) → inner value ≡ ok v → outer v ≡ ok value)
    → (x : Nullish T) (v : V) → to_guest engine inner x ≡ ok v
    → from_guest engine outer v ≡ ok x
unfolding to_guest from_guest of_kind
from_guest-to_guest engine inner outer ku kn nu nn back undefined v h =
    let made : engine.new_undefined ≡ v = ground arith in
    subst (λ w. of_kind engine (outer w) (engine.kind w) ≡ ok undefined) made
      (ap (of_kind engine (outer engine.new_undefined)) ku)
from_guest-to_guest engine inner outer ku kn nu nn back null v h =
    let made : engine.new_null ≡ v = ground arith in
    subst (λ w. of_kind engine (outer w) (engine.kind w) ≡ ok null) made
      (ap (of_kind engine (outer engine.new_null)) kn)
from_guest-to_guest engine inner outer ku kn nu nn back (present value) v h =
    ap (λ r. of_kind engine r (engine.kind v)) (back value v h)
    ∙ present_kind engine value (engine.kind v) (nu value v h) (nn value v h)
