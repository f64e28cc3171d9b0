-- ===== src/Operation/Compute/MinMax.antt =====
-- cxsom/src/cxsomOperation.hpp: `MinMax`, the least or the greatest of scalars.
pub mod Proposed
pub mod Least
use cxsom.Prelude.{ℕ, Bool, true, false, Option, none, some, ◌>>=◌, List, [], ◌∷◌, if◌then◌else◌}
use cxsom.Types.Values.{Value}
use cxsom.Operation.Compute.{Doubles, Operation, scalar_of}

-- The members that change.
pub record Members (D : Type 0) : Type 0 where
  pub value_out : D
  pub value_in : D

module _ {D : Type 0} (doubles : Doubles D) (is_min : Bool) where
  abbrev pub init : D
  init = if is_min then doubles.greatest else doubles.lowest

  -- `update`, with `std::min` and `std::max`, which keep the first one of two equal values.
  abbrev pub update : D → D → D
  update res value =
      if is_min
      then (if doubles.less value res then value else res)
      else (if doubles.less res value then value else res)

  -- The constructor.
  abbrev pub construct : Members D
  construct = record { value_out = init; value_in = init }

  abbrev pub on_computation_start : Members D → Members D
  on_computation_start s = record { value_out = init; value_in = init }

  unfoldable pub on_read_out_arg : ℕ → Value D → Members D → Option (Members D)
  on_read_out_arg n v s = scalar_of v >>= λ x. some (record s { value_out = update s.value_out x })

  abbrev pub on_read_out_arg_aborted : Members D → Members D
  on_read_out_arg_aborted s = record s { value_out = init }

  unfoldable pub on_read_in_arg : ℕ → Value D → Members D → Option (Members D)
  on_read_in_arg n v s = scalar_of v >>= λ x. some (record s { value_in = update s.value_in x })

  unfoldable pub on_write_result : D → Value D → Members D → Option (Bool × Value D × Members D)
  on_write_result epsilon v s = do
    res ← scalar_of v
    let proposed_result : D = update s.value_in s.value_out
    let updated : Bool = doubles.less epsilon (doubles.fabs (doubles.sub res proposed_result))
    some (updated, record v { content = proposed_result ∷ [] }, record s { value_in = init })

  abbrev pub operation : D → Operation (Members D) (Value D)
  operation epsilon = record {
    on_computation_start = on_computation_start;
    on_read_out_arg = on_read_out_arg;
    on_read_out_arg_aborted = on_read_out_arg_aborted;
    on_read_in_arg = on_read_in_arg;
    on_write_result = on_write_result epsilon;
  }
