-- ===== src/Marshal/Nullish.antt =====
-- crates/guestjs-core/src/marshal/nullish.rs: a value that may be `undefined` or `null`. The values
-- of the engine, their kinds and the conversion of what is inside are parameters.
pub mod RoundTrip
use guestjs.Prelude.{Option, none, some}
use guestjs.Errors.{Error, Result, ok, err, ◌>>=◌}

pub data Nullish (T : Type 0) : Type 0 where
  undefined null : Nullish T
  present : T → Nullish T

-- `Kind` of crates/guestjs-core/src/backend/values.rs
pub data Kind : Type 0 where
  undefined_kind null_kind boolean number big_int string symbol array function promise : Kind
  array_buffer typed_array data_view set object : Kind

module _ {T : Type 0} where
  unfoldable pub map_nullish : {U : Type 0} → (T → U) → Nullish T → Nullish U
  map_nullish f undefined = undefined
  map_nullish f null = null
  map_nullish f (present value) = present (f value)

  unfoldable pub unwrap_nullish : T → Nullish T → T
  unwrap_nullish default (present value) = value
  unwrap_nullish default _ = default

  -- `unwrap_or_else`, whose fallback is called for an absent value only
  unfoldable pub unwrap_or_else : (Unit {0} → T) → Nullish T → T
  unwrap_or_else f (present value) = value
  unwrap_or_else f _ = f tt

  unfoldable pub present_or : Error → Nullish T → Result T
  present_or e (present value) = ok value
  present_or e _ = err e

  unfoldable pub to_option : Nullish T → Option T
  to_option (present value) = some value
  to_option _ = none

  unfoldable pub from_option : Option T → Nullish T
  from_option (some value) = present value
  from_option none = undefined

-- What the conversion uses of the engine: the two absent values and the kind of a value.
pub record Values (V : Type 0) : Type 0 where
  pub new_undefined : V
  pub new_null : V
  pub kind : V → Kind

module _ {V T : Type 0} (engine : Values V) where
  unfoldable pub to_guest : (T → Result V) → Nullish T → Result V
  to_guest inner undefined = ok engine.new_undefined
  to_guest inner null = ok engine.new_null
  to_guest inner (present value) = inner value

  of_kind : Result T → Kind → Result (Nullish T)
  of_kind inner undefined_kind = ok undefined
  of_kind inner null_kind = ok null
  of_kind inner _ = inner >>= λ value. ok (present value)

  unfoldable pub from_guest : (V → Result T) → V → Result (Nullish T)
  unfolding of_kind
  from_guest inner v = of_kind (inner v) (engine.kind v)
