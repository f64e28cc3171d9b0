-- ===== src/Operation/Compute/Average.antt =====
-- cxsom/src/cxsomOperation.hpp: `Average`. The type that is kept is only tested for being there.
pub mod Sums
pub mod Kept
pub mod Averaged
pub mod Tests
use cxsom.Prelude.{
  ℕ, ◌+◌, Bool, true, false, not, Option, none, some, ◌>>=◌, List, [], ◌∷◌, map, if◌then◌else◌,
  ◌==◌,
}
use cxsom.Update.{u32}
use cxsom.Types.{DataType, is_map, size}
use cxsom.Types.Values.{Value, replicate}
use cxsom.Operation.Compute.{Doubles, Operation, map_of}

pub record Members (D : Type 0) : Type 0 where
  pub sum_out : List D
  pub nb_out : ℕ
  pub sum_out_computed : Bool
  pub sum_in : List D
  pub nb_in : ℕ
  pub has_type : Bool

module _ {D : Type 0} (doubles : Doubles D) where
  -- The constructor; `nb_out` and `nb_in` are not set before the first computation starts.
  abbrev pub construct : Members D
  construct = record {
    sum_out = [];
    nb_out = 0;
    sum_out_computed = false;
    sum_in = [];
    nb_in = 0;
    has_type = false;
  }

  abbrev pub fill : List D → List D
  fill xs = map (λ x. doubles.zero) xs

  -- The sums take a size, with zeros.
  abbrev pub allocate : ℕ → Members D → Members D
  allocate n s = if s.has_type then s else record s {
    has_type = true;
    sum_in = replicate n doubles.zero;
    sum_out = replicate n doubles.zero;
  }

  unfoldable pub check_internal_allocations : DataType → Members D → Option (Members D)
  check_internal_allocations t s =
      if s.has_type then some s else if is_map t then some (allocate (size t) s) else none

  unfoldable pub on_computation_start : Members D → Members D
  on_computation_start s =
      let s' =
        if not s.sum_out_computed
        then record s { sum_out_computed = true; sum_out = fill s.sum_out; nb_out = 0 }
        else s in
      record s' { sum_in = fill s.sum_in; nb_in = 0 }

  -- A loop that adds doubles to a sum; none is a double behind the end of the sum.
  abbrev pub add_to : List D → List D → Option (List D)
  add_to sum [] = some sum
  add_to [] (x ∷ xs) = none
  add_to (s ∷ sum) (x ∷ xs) = add_to sum xs >>= λ rest. some (doubles.add s x ∷ rest)

  unfoldable pub on_read_out_arg : ℕ → Value D → Members D → Option (Members D)
  on_read_out_arg n v s = do
    s' ← check_internal_allocations v.type s
    content ← map_of v
    sum ← add_to s'.sum_out content
    some (record s' { sum_out = sum; nb_out = u32 (s'.nb_out + 1) })

  abbrev pub on_read_out_arg_aborted : Members D → Members D
  on_read_out_arg_aborted s = record s { sum_out_computed = false }

  unfoldable pub on_read_in_arg : ℕ → Value D → Members D → Option (Members D)
  on_read_in_arg n v s = do
    s' ← check_internal_allocations v.type s
    content ← map_of v
    sum ← add_to s'.sum_in content
    some (record s' { sum_in = sum; nb_in = u32 (s'.nb_in + 1) })

  -- `*accum_ptr`, when the two sums are merged, and the sums once it has its doubles changed.
  abbrev pub accumulated : Members D → Option (List D)
  accumulated s =
      if s.nb_in == 0
      then some s.sum_out
      else if not (s.nb_out == 0)
      then add_to s.sum_in s.sum_out
      else some s.sum_in

  abbrev pub put_accumulated : List D → Members D → Members D
  put_accumulated xs s =
      if s.nb_in == 0 then record s { sum_out = xs } else record s { sum_in = xs }

  -- The loop that writes the result, with `std::max`; none is a double behind the end of the content.
  abbrev pub write_all : D → List D → List D → Option (D × List D)
  write_all max_diff [] content = some (max_diff, content)
  write_all max_diff (x ∷ xs) [] = none
  write_all max_diff (x ∷ xs) (c ∷ content) =
      let diff = doubles.fabs (doubles.sub x c) in
      write_all (if doubles.less max_diff diff then diff else max_diff) xs content >>= λ r.
      some (r.0, x ∷ r.1)

  -- The average and the writing of it, for a number of arguments that is not 0.
  unfoldable pub write_average : D → ℕ → Value D → Members D → Option (Bool × Value D × Members D)
  write_average epsilon nb v s = do
    sum ← accumulated s
    content ← map_of v
    let coef : D = doubles.div (doubles.of_nat 1) (doubles.of_nat nb)
    let average : List D = map (λ x. doubles.mul x coef) sum
    r ← write_all doubles.zero average content
    some (doubles.less epsilon r.0, record v { content = r.1 }, put_accumulated average s)

  unfoldable pub on_write_result : D → Value D → Members D → Option (Bool × Value D × Members D)
  on_write_result epsilon v s = check_internal_allocations v.type s >>= λ s'.
      let nb = u32 (s'.nb_in + s'.nb_out) in
      if nb == 0 then some (false, v, s') else write_average epsilon nb v s'

  abbrev pub operation : D → Operation (Members D) (Value D)
  operation epsilon = record {
    on_computation_start = on_computation_start;
    on_read_out_arg = on_read_out_arg;
    on_read_out_arg_aborted = on_read_out_arg_aborted;
    on_read_in_arg = on_read_in_arg;
    on_write_result = on_write_result epsilon;
  }
