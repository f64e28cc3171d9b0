-- ===== src/Operation/Compute/Copy.antt =====
-- cxsom/src/cxsomOperation.hpp: `Copy`.
pub mod Copied
use cxsom.Prelude.{ℕ, Bool, true, false, Option, none, some, ◌>>=◌, List, [], ◌∷◌, if◌then◌else◌}
use cxsom.Types.Values.{Value, read, write, is_equal}
use cxsom.Operation.Compute.{Doubles, Operation}

pub record Members (D : Type 0) : Type 0 where
  pub buffer : List D
  pub from_out : Bool

module _ {D : Type 0} (doubles : Doubles D) where
  -- The constructor; `from_out` is not set before the first computation starts.
  abbrev pub construct : Members D
  construct = record { buffer = []; from_out = false }

  abbrev pub on_computation_start : Members D → Members D
  on_computation_start s = record s { from_out = false }

  -- The buffer takes the size of the value.
  unfoldable pub on_read_out_arg : ℕ → Value D → Members D → Option (Members D)
  on_read_out_arg n v s = write v >>= λ buf. some (record { buffer = buf; from_out = true })

  unfoldable pub on_read_in_arg : ℕ → Value D → Members D → Option (Members D)
  on_read_in_arg n v s = write v >>= λ buf. some (record s { buffer = buf })

  abbrev pub put : Value D → Members D → Option (Bool × Value D × Members D)
  put v s = read s.buffer v >>= λ v'. some (true, v', s)

  unfoldable pub on_write_result : Value D → Members D → Option (Bool × Value D × Members D)
  on_write_result v s =
      if s.from_out
      then put v s
      else (is_equal doubles.same s.buffer v >>= λ equal.
          if equal then some (false, v, s) else put v s)

  abbrev pub operation : Operation (Members D) (Value D)
  operation = record {
    on_computation_start = on_computation_start;
    on_read_out_arg = on_read_out_arg;
    on_read_out_arg_aborted = λ s. s;
    on_read_in_arg = on_read_in_arg;
    on_write_result = on_write_result;
  }
