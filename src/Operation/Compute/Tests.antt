-- ===== src/Operation/Compute/Tests.antt =====
-- The computations at concrete values, over whole numbers for doubles, and the theorems on them.
use cxsom.Prelude.{
  ◌≤◌, ◌<◌, ◌*◌, ◌/◌, map, not, sub64, ℕ, ◌≡◌, ◌↔◌, refl, Bool, true, false, if◌then◌else◌, ltb,
  Option, none, some, List, [], ◌∷◌, arith, ◌=?◌, All, ◌>>=◌,
}
use cxsom.Symbol.{variable_Eq, name_Eq, time_step_Eq, instance_Eq}
use cxsom.Data.{Availability}
use cxsom.Data.Instance.{Memory}
use cxsom.Update.{Base, notify_datation, note_in_arg}
use cxsom.Update.Exec.{exec, skips, read_outs, read_ins}
use cxsom.Types.{Content, DataType, byte_length, type_eq, name, content_name}
use cxsom.Types.Values.{Value, take}
use cxsom.Operation.Compute.{scalar_of, hooks}
use cxsom.Operation.Compute.Running.{begun}
use cxsom.Operation.Compute.MinMax
use cxsom.Operation.Compute.MinMax.Proposed.{exec-proposed}
use cxsom.Operation.Compute.MinMax.Least.{IsOrdered, better, Among, proposed-best}
use cxsom.Operation.Compute.ValueAt.{Casts, advance, coordinate, element_at}
use cxsom.Operation.Compute.ValueAt
use cxsom.Operation.Compute.ValueAt.Bounds.{element-bound, on_write_result-element}
use cxsom.Operation.Compute.Copy
use cxsom.Operation.Compute.Copy.Copied.{IsArgument, IsStored, exec-copied}
use cxsom.Operation.Typing.{check_types_copy}
use cxsom.Operation.Typed.{Indexing, scalar, pos1, pos2}
use cxsom.Operation.Compute.Numbers.{
  at_date, same_number, numbers, value, no_files, res, in_y, out_z,
}

-- A line of 5 positions of the plane.
abbrev line : DataType
line = DataType.map1 Content.pos2 5

copy_of_scalar : check_types_copy scalar (scalar ∷ []) ≡ true
unfolding type_eq name content_name
copy_of_scalar = refl

numbers-IsOrdered : IsOrdered numbers
numbers-IsOrdered = ground arith

-- NaN is passed over by `min`.
proposed-best_example :
    All (λ x. better numbers true x (some 3) ≡ false) (some 1000 ∷ some 4 ∷ none ∷ some 3 ∷ [])
    × Among {D = Option ℕ} (some 3) (some 1000 ∷ some 4 ∷ none ∷ some 3 ∷ [])
proposed-best_example =
    proposed-best numbers true numbers-IsOrdered (some 4 ∷ none ∷ []) (some 3 ∷ [])

-- At date 0, `y` is 4 and busy, `z` is 3 and ready; the others are 9 and busy.
abbrev memory : Memory (Value (Option ℕ)) Unit
memory = record {
  cell = λ w.
      if w =? at_date "y" 0
      then record { status = Availability.busy; datation = 6; content = value (some 4) }
      else if w =? at_date "z" 0
      then record { status = Availability.ready; datation = 2; content = value (some 3) }
      else record { status = Availability.busy; datation = 0; content = value (some 9) };
  files = tt;
}

-- The least of `y` and `z`, in an execution that is not the first.
abbrev least : Base (Option (MinMax.Members (Option ℕ)))
least = record {
  result = res true;
  args_in = in_y ∷ [];
  args_out = out_z ∷ [];
  is_init = false;
  out_ok = true;
  self = some (MinMax.construct numbers true);
}

least-runs :
    skips
      (hooks (MinMax.operation numbers true (some 0)))
      no_files
      (begun (MinMax.operation numbers true (some 0)) no_files true least memory)
      memory
    ≡ false
unfolding read_ins notify_datation note_in_arg
least-runs = refl

exec-proposed_example :
    scalar_of
      ((exec (hooks (MinMax.operation numbers true (some 0))) no_files least memory).memory.cell
        (at_date "x" 0)).content
    ≡ some (some 4)
exec-proposed_example =
    exec-proposed numbers true no_files (some 0) least memory (MinMax.construct numbers true)
      (some 9) (some 4 ∷ []) (some 3 ∷ []) refl refl refl least-runs refl (refl, tt) (refl, tt)

-- `x` is a copy of `y`, for the first time.
abbrev copy_x : Base (Option (Copy.Members (Option ℕ)))
copy_x = record {
  result = res false;
  args_in = in_y ∷ [];
  args_out = [];
  is_init = false;
  out_ok = false;
  self = some (Copy.construct numbers);
}

same_number_iff : (x y : Option ℕ) → (same_number x y ≡ true) ↔ (x ≡ y)
same_number_iff x y = ground arith

copy_x-runs :
    skips
      (hooks (Copy.operation numbers))
      no_files
      (begun (Copy.operation numbers) no_files false copy_x memory)
      memory
    ≡ false
unfolding read_ins read_outs notify_datation note_in_arg
copy_x-runs = refl

value-IsStored : (x : Option ℕ) → IsStored (value x)
unfolding byte_length
value-IsStored x = refl

exec-copied_example :
    let r = exec (hooks (Copy.operation numbers)) no_files copy_x memory in
    ((r.memory.cell (at_date "x" 0)).content ≡ value (some 4))
    × ((s : Copy.Members (Option ℕ)) × (r.self.self ≡ some s))
exec-copied_example =
    exec-copied numbers same_number_iff no_files copy_x memory (Copy.construct numbers)
      (value (some 4)) refl refl refl copy_x-runs (IsArgument.from_ins false in_y refl) tt tt
      copy_of_scalar (value-IsStored (some 9)) (value-IsStored (some 4))

-- Thousandths, for a position.
abbrev thousandths : Casts (Option ℕ)
thousandths = record {
  at_least_one = λ x. elim x [ none ↦ false | some a ↦ not (ltb a 1000) ];
  scaled = λ x n. elim x [ none ↦ 0 | some a ↦ a * n / 1000 ];
  bytes_of = λ x. (x, some 0 ∷ []);
}

thousandths-bound :
    (x : Option ℕ) (n : ℕ)
    → thousandths.at_least_one x ≡ false
    → numbers.less numbers.zero x ≡ true
    → thousandths.scaled x n ≤ n
thousandths-bound none n h k = omega arith
thousandths-bound (some a) n h k = omega (arith, element-bound a 1000 n (ground arith))

abbrev weights : List (Option ℕ)
weights = map some (0 ∷ 1 ∷ 2 ∷ 3 ∷ 4 ∷ 5 ∷ 6 ∷ 7 ∷ 8 ∷ 9 ∷ [])

abbrev origin : Value (Option ℕ)
origin = record { type = pos2; content = some 0 ∷ some 0 ∷ [] }

-- At 0.6, the third of the five positions.
abbrev asked : ValueAt.Members (Option ℕ)
asked = record {
  collection_in = true;
  value_in = false;
  collection_buf = some weights;
  x = some 600;
  y = none;
}

pos2_bytes : 2 ≡ byte_length pos2 / 8
unfolding byte_length
pos2_bytes = refl

on_write_result-element_example :
    (changed : Bool) × (xs : List (Option ℕ)) × (element_at numbers thousandths line pos2
        (some 600)
        none
      < 5)
    × ((advance (element_at numbers thousandths line pos2 (some 600) none * 2) weights >>= take 2)
        ≡ some xs)
    × (ValueAt.on_write_result numbers thousandths line pos2 (some 0) origin asked
        ≡ some (changed, record origin { content = xs }, asked))
on_write_result-element_example =
    on_write_result-element numbers thousandths (record { scaled-bound = thousandths-bound }) pos2
      line pos1 (some 0) origin asked weights (Indexing.line Content.pos2 5) (tt, ground arith)
      (ground arith) refl refl refl pos2_bytes

third : element_at numbers thousandths line pos2 (some 600) none ≡ 2
unfolding element_at coordinate sub64
third = refl
