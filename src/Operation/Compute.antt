-- ===== src/Operation/Compute.antt =====
-- cxsom/src/cxsomOperation.hpp: the subclasses of the update rule, over an interface of doubles.
-- An operation that reads a value of another class than its cast says, or that leaves the memory of a
-- value or of its own, has no further state: its calls are partial.
pub mod Running
pub mod Copy
pub mod MinMax
pub mod Average
pub mod ValueAt
pub mod Match
pub mod Numbers
pub mod Tests
use cxsom.Prelude.{
  ℕ, Bool, true, false, Option, none, some, ◌>>=◌, List, [], ◌∷◌, map, if◌then◌else◌,
}
use cxsom.Symbol
use cxsom.Data.Instance.{Cell}
use cxsom.Update.{InArg, OutArg, Base, Hooks}
use cxsom.Types.{is_scalar, is_pos1d, is_pos2d, is_map}
use cxsom.Types.Values.{Value}

-- What the operations do with doubles. `greatest` and `lowest` are the limits of the type, `same` is
-- the equality of the bytes, and `equal` the one of `!=`.
pub record Doubles (D : Type 0) : Type 0 where
  pub zero : D
  pub greatest : D
  pub lowest : D
  pub less : D → D → Bool
  pub equal : D → D → Bool
  pub same : D → D → Bool
  pub add : D → D → D
  pub sub : D → D → D
  pub mul : D → D → D
  pub div : D → D → D
  pub fabs : D → D
  pub neg : D → D
  pub sqrt : D → D
  pub exp : D → D
  pub of_nat : ℕ → D

-- The virtual functions, over the members `F` of the subclass; none where the behaviour is undefined.
pub record Operation (F V : Type 0) : Type 0 where
  pub on_computation_start : F → F
  pub on_read_out_arg : ℕ → V → F → Option F
  pub on_read_out_arg_aborted : F → F
  pub on_read_in_arg : ℕ → V → F → Option F
  pub on_write_result : V → F → Option (Bool × V × F)

-- What `on_write_result` leaves: a result that cannot be written stays.
abbrev pub written : {F V : Type 0} → V → Option (Bool × V × F) → Bool × V × Option F
written v none = (false, v, none)
written v (some (significant, v', s)) = (significant, v', some s)

-- The operation as the virtual functions that the update rule calls.
unfoldable pub hooks : {F V : Type 0} → Operation F V → Hooks (Option F) V
hooks op = record {
  on_computation_start = λ f. f >>= λ s. some (op.on_computation_start s);
  on_read_out_arg = λ i n v f. f >>= op.on_read_out_arg n v;
  on_read_out_arg_aborted = λ f. f >>= λ s. some (op.on_read_out_arg_aborted s);
  on_read_in_arg = λ i n v f. f >>= op.on_read_in_arg n v;
  on_write_result = λ v f. written v (f >>= op.on_write_result v);
}

-- The casts to `data::Scalar`, `data::d1::Pos` and `data::d2::Pos`, and their doubles.
module _ {D : Type 0} where
  abbrev pub scalar_of : Value D → Option D
  scalar_of v = elim v.content [ x ∷ [] ↦ if is_scalar v.type then some x else none | _ ↦ none ]

  abbrev pub pos1_of : Value D → Option D
  pos1_of v = elim v.content [ x ∷ [] ↦ if is_pos1d v.type then some x else none | _ ↦ none ]

  abbrev pub pos2_of : Value D → Option (D × D)
  pos2_of v = elim v.content [
    | x ∷ y ∷ [] ↦ if is_pos2d v.type then some (x, y) else none
    | _ ↦ none
  ]

  -- The cast to `data::Map`.
  abbrev pub map_of : Value D → Option (List D)
  map_of v = if is_map v.type then some v.content else none
