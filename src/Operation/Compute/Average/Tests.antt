-- ===== src/Operation/Compute/Average/Tests.antt =====
-- An average of two maps, in a second execution.
use cxsom.Prelude.{ℕ, true, false, if◌then◌else◌, Option, some, [], ◌∷◌, ◌=?◌}
use cxsom.Symbol.{variable_Eq, name_Eq, time_step_Eq, instance_Eq}
use cxsom.Data.{Availability}
use cxsom.Data.Instance.{Memory}
use cxsom.Update.{Base}
use cxsom.Types.{Content, DataType}
use cxsom.Types.Values.{Value}
use cxsom.Operation.Compute.Average
use cxsom.Operation.Compute.Average.Kept.{Kept}
use cxsom.Operation.Compute.Numbers.{at_date, res, in_y, out_z}

-- Maps of two scalars: `y` is (4, 6) and has changed, `z` is (2, 8) and ready, `x` is the result.
abbrev two : ℕ → ℕ → Value (Option ℕ)
two a b = record { type = DataType.map1 Content.scalar 2; content = some a ∷ some b ∷ [] }

abbrev maps : Memory (Value (Option ℕ)) Unit
maps = record {
  cell = λ w.
      if w =? at_date "y" 0
      then record { status = Availability.busy; datation = 6; content = two 4 6 }
      else if w =? at_date "z" 0
      then record { status = Availability.ready; datation = 2; content = two 2 8 }
      else record { status = Availability.busy; datation = 0; content = two 9 9 };
  files = tt;
}

-- After a first execution, that has read `z`.
abbrev second_time : Average.Members (Option ℕ)
second_time = record {
  sum_out = some 2 ∷ some 8 ∷ [];
  nb_out = 1;
  sum_out_computed = true;
  sum_in = some 5 ∷ some 5 ∷ [];
  nb_in = 1;
  has_type = true;
}

abbrev average_x : Base (Option (Average.Members (Option ℕ)))
average_x = record {
  result = res true;
  args_in = in_y ∷ [];
  args_out = out_z ∷ [];
  is_init = false;
  out_ok = true;
  self = some second_time;
}
