-- ===== src/Operation/Compute/Numbers.antt =====
-- Whole numbers as an instance of the doubles, and arguments, for the tests of the computations.
use cxsom.Prelude.{
  ◌*◌, ◌/◌, ℕ, ◌+◌, ◌-◌, Bool, true, false, ◌==◌, ltb, Option, none, some, [], ◌∷◌, String, ◌>>=◌,
}
use cxsom.Symbol.{Variable, TimeStep, variable_Eq, name_Eq, time_step_of, time_step_Eq, instance_Eq}
use cxsom.Symbol
use cxsom.Data.{Availability, FileAvailability}
use cxsom.Data.Instance.{Files}
use cxsom.Update.{InArg, OutArg, Res}
use cxsom.Types.Values.{Value}
use cxsom.Operation.Compute.{Doubles}
use cxsom.Operation.Typed.{scalar}

abbrev pub at_date : String → ℕ → Symbol.Instance
at_date n k = record { variable = record { timeline = "main"; name = n }; at = k }

-- Whole numbers for doubles, with none for NaN; a quotient counts 60ths.
abbrev pub on_numbers : (ℕ → ℕ → Bool) → Option ℕ → Option ℕ → Bool
on_numbers f (some a) (some b) = f a b
on_numbers f _ _ = false

abbrev pub same_number : Option ℕ → Option ℕ → Bool
same_number none none = true
same_number (some a) (some b) = a == b
same_number _ _ = false

abbrev pub lift2 : (ℕ → ℕ → ℕ) → Option ℕ → Option ℕ → Option ℕ
lift2 f x y = x >>= λ a. y >>= λ b. some (f a b)

abbrev pub distance : ℕ → ℕ → ℕ
distance a b = (a - b) + (b - a)

abbrev pub numbers : Doubles (Option ℕ)
numbers = record {
  zero = some 0;
  greatest = some 1000;
  lowest = some 0;
  less = on_numbers ltb;
  equal = on_numbers λ a b. a == b;
  same = same_number;
  add = lift2 λ a b. a + b;
  sub = lift2 distance;
  mul = lift2 λ a b. a * b / 60;
  div = lift2 λ a b. a * 60 / b;
  fabs = λ x. x;
  neg = λ x. x;
  sqrt = λ x. x;
  exp = λ x. x;
  of_nat = some;
}

abbrev pub value : Option ℕ → Value (Option ℕ)
value x = record { type = scalar; content = x ∷ [] }

abbrev pub no_files : Files (Value (Option ℕ)) Unit
no_files = record { declare_ready = λ w v m. m; sync = λ w m. (m, FileAvailability.busy, none) }

abbrev pub res : Bool → Res
res once = record {
  who = at_date "x" 0;
  max_in_args_date = none;
  all_ready = false;
  updated_once = once;
}

abbrev pub in_y : InArg
in_y = record {
  who = at_date "y" 0;
  availability = Availability.busy;
  arg_number = 0;
  update = none;
  date = 5;
}

abbrev pub out_z : OutArg
out_z = record { who = at_date "z" 0; availability = Availability.ready; arg_number = 1 }
