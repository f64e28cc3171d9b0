-- ===== src/Operation/Compute/Match.antt =====
-- cxsom/src/cxsomOperation.hpp: the functions of `match`, and `Match` with `MatchTriangle` and
-- `MatchGaussian`.
pub mod Rows
pub mod Typed
pub mod Tests
use cxsom.Prelude.{
  ℕ, Bool, true, false, ◌||◌, Option, none, some, ◌>>=◌, List, [], ◌∷◌, if◌then◌else◌, ltb, ◌==◌,
  length,
}
use cxsom.Types.{DataType, is_scalar, is_pos1d, is_pos2d, is_array}
use cxsom.Types.Values.{Value, take, write}
use cxsom.Operation.Compute.{Doubles, Operation, scalar_of, pos1_of, pos2_of, map_of}
use cxsom.Operation.Compute.ValueAt.{advance}

pub record Members (D : Type 0) : Type 0 where
  pub w : List D
  pub i1 : D
  pub i2 : List D
  pub in_n : List D
  pub input_type : Option DataType

-- A function of `match`, with its first parameter: of two doubles, and of two runs of doubles.
pub record Kernel (D : Type 0) : Type 0 where
  pub one : D → D → D
  pub many : List D → List D → Option D

module _ {D : Type 0} (doubles : Doubles D) where
  -- `d2`: the loop goes over the first run; none is a double behind the end of the second one.
  abbrev pub distance2 : D → List D → List D → Option D
  distance2 d2 [] ys = some d2
  distance2 d2 (x ∷ xs) [] = none
  distance2 d2 (x ∷ xs) (y ∷ ys) =
      let tmp = doubles.sub x y in distance2 (doubles.add d2 (doubles.mul tmp tmp)) xs ys

  -- `std::max(0., 1.-a*x)`
  abbrev pub positive : D → D → D
  positive a x =
      let y = doubles.sub (doubles.of_nat 1) (doubles.mul a x) in
      if doubles.less doubles.zero y then y else doubles.zero

  abbrev pub gaussian : D → Kernel D
  gaussian a = record {
    one = λ x y.
        let d = doubles.sub x y in doubles.exp (doubles.mul (doubles.neg a) (doubles.mul d d));
    many = λ xs ys.
        distance2 doubles.zero xs ys >>= λ d2. some (doubles.exp (doubles.mul (doubles.neg a) d2));
  }

  abbrev pub triangle : D → Kernel D
  triangle a = record {
    one = λ x y. positive a (doubles.fabs (doubles.sub x y));
    many = λ xs ys. distance2 doubles.zero xs ys >>= λ d2. some (positive a (doubles.sqrt d2));
  }

  -- `read_data`, from `input_type` on; none is the error of a bad type, too.
  unfoldable pub read_input : Value D → Members D → Option (Members D)
  read_input v s =
      if is_scalar v.type
      then (scalar_of v >>= λ x. some (record s { i1 = x }))
      else if is_pos1d v.type
      then (pos1_of v >>= λ x. some (record s { i1 = x }))
      else if is_pos2d v.type
      then (pos2_of v >>= λ p. some (record s { i2 = p.0 ∷ p.1 ∷ [] }))
      else if ltb 0 (is_array v.type)
      then (if length v.content == is_array v.type
          then some (record s { in_n = v.content })
          else none)
      else none

  unfoldable pub read_data : ℕ → Value D → Members D → Option (Members D)
  read_data argnum v s =
      if argnum == 0
      then read_input v (record s { input_type = some v.type })
      else (write v >>= λ buf. some (record s { w = buf }))

  -- The loop over the content: each double comes from the next weights, as many as an input has.
  abbrev pub match_all : (List D → Option D) → ℕ → D → List D → List D → Option (D × List D)
  match_all f dim max_diff weights [] = some (max_diff, [])
  match_all f dim max_diff weights (res ∷ content) = do
    row ← take dim weights
    rest ← advance dim weights
    tmp ← f row
    let diff : D = doubles.fabs (doubles.sub tmp res)
    let m : D = if doubles.less max_diff diff then diff else max_diff
    r ← match_all f dim m rest content
    some (r.0, tmp ∷ r.1)

  -- The function of one row, and how many weights it has, by the type of the input.
  unfoldable pub row_match : Kernel D → Members D → Option ((List D → Option D) × ℕ)
  row_match kernel s = s.input_type >>= λ t.
      if is_scalar t || is_pos1d t
      then some (λ row. elim row [ w ∷ [] ↦ some (kernel.one w s.i1) | _ ↦ none ], 1)
      else if is_pos2d t
      then some (λ row. kernel.many row s.i2, 2)
      else if ltb 0 (is_array t)
      then some (λ row. kernel.many row s.in_n, is_array t)
      else none

  unfoldable pub on_write_result :
      Kernel D → D → Value D → Members D → Option (Bool × Value D × Members D)
  on_write_result kernel epsilon v s = do
    content ← map_of v
    f ← row_match kernel s
    r ← match_all f.0 f.1 doubles.zero s.w content
    some (doubles.less epsilon r.0, record v { content = r.1 }, s)

  abbrev pub operation : Kernel D → D → Operation (Members D) (Value D)
  operation kernel epsilon = record {
    on_computation_start = λ s. s;
    on_read_out_arg = read_data;
    on_read_out_arg_aborted = λ s. s;
    on_read_in_arg = read_data;
    on_write_result = on_write_result kernel epsilon;
  }
