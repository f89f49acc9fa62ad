-- ===== src/Marshal/Args.antt =====
-- `Args` of crates/guestjs-core/src/marshal/args.rs: the arguments of a call, read one after the
-- other. `next` is a `Cell`: a read returns the arguments with the position that it leaves.
pub mod Order
use guestjs.Prelude.{ℕ, zero, suc, Option, none, some, List, [], ◌∷◌, length, ◌+◌}

pub record RawCall (V : Type 0) : Type 0 where
  pub this_value : V
  pub args : List V
  pub new_target : Option V

pub record Args (V : Type 0) : Type 0 where
  pub this_value : V
  pub values : List V
  pub new_target : V
  pub absent : V
  pub next : ℕ

module _ {V : Type 0} where
  or_absent : V → Option V → V
  or_absent absent none = absent
  or_absent absent (some v) = v

  -- `undefined` is the value that the engine makes for a missing argument
  unfoldable pub new_args : V → RawCall V → Args V
  unfolding or_absent
  new_args undefined call = record {
    this_value = call.this_value;
    values = call.args;
    new_target = or_absent undefined call.new_target;
    absent = undefined;
    next = 0;
  }

  -- `slice::get`
  unfoldable pub get_elem? : ℕ → List V → Option V
  get_elem? i [] = none
  get_elem? zero (v ∷ vs) = some v
  get_elem? (suc i) (v ∷ vs) = get_elem? i vs

  -- `slice::get(i..).unwrap_or_default()`
  unfoldable pub drop : ℕ → List V → List V
  drop zero vs = vs
  drop (suc i) [] = []
  drop (suc i) (v ∷ vs) = drop i vs

  unfoldable pub advance : Args V → V × Args V
  unfolding or_absent get_elem?
  advance a = (or_absent a.absent (get_elem? a.next a.values), record a { next = a.next + 1 })

  -- the values of `rest`, before each is converted
  unfoldable pub rest : Args V → List V × Args V
  unfolding drop
  rest a = (drop a.next a.values, record a { next = length a.values })

  -- A function of `n` parameters reads `n` times.
  unfoldable pub advance_all : ℕ → Args V → List V × Args V
  unfolding advance
  advance_all zero a = ([], a)
  advance_all (suc n) a =
      let (v, after) = advance a in let (vs, last) = advance_all n after in (v ∷ vs, last)
