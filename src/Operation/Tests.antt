-- ===== src/Operation/Tests.antt =====
-- The type checker and the factory at concrete operations, and the theorems on them.
use mathlib.Core.Option.{some-injective}
use cxsom.Prelude.{
  ℕ, subst, ◌≡◌, ◌↔◌, refl, false, Option, none, some, List, [], ◌∷◌, arith, String, find, contains,
}
use cxsom.Symbol.{Variable, TimeStep, variable_Eq, name_Eq, time_step_of, time_step_Eq, instance_Eq}
use cxsom.Symbol
use cxsom.Data.{Availability}
use cxsom.Types.{Content, DataType, IsType, type_eq, name, content_name}
use cxsom.Job.{Function, Update}
use cxsom.Job.Center.{Steps, Center}
use cxsom.Job.Adding.{add_update, type_checking, check_function, types_of}
use cxsom.Operation.Table.{TypeChecker, check, type_checks, updates, fill_checker}
use cxsom.Operation.Typed.{Typed, scalar, pos1, pos2}
use cxsom.Operation.Accepted.{check-Typed, fill_factory-eq, fill_checker-eq}
use cxsom.Operation.Adding.{checker_of, IsRunnable, add_update-IsRunnable}

-- A line of 5 positions of the plane.
abbrev line : DataType
line = DataType.map1 Content.pos2 5

-- The second argument of a pair is not looked at.
pair_of_map : check type_checks "pair" pos2 (pos1 ∷ line ∷ []) ≡ none
unfolding check find
pair_of_map = refl

average_of_scalars : check type_checks "average" scalar (scalar ∷ scalar ∷ []) ≡ none
unfolding check find type_eq name content_name
average_of_scalars = refl

check-Typed_example :
    (checker : TypeChecker) × (fill_checker ≡ some checker)
    × ((check checker "value-at" pos2 (line ∷ pos1 ∷ []) ≡ none)
        ↔ Typed "value-at" pos2 (line ∷ pos1 ∷ []))
check-Typed_example =
    check-Typed "value-at" pos2 (line ∷ pos1 ∷ []) tt ((tt, ground arith), (tt, tt))

-- Every variable has a position on a line for its type.
abbrev positions : Variable → Option DataType
positions v = some pos1

positions-IsType : (v : Variable) (t : DataType) → positions v ≡ some t → IsType t
positions-IsType v t h = subst IsType (some-injective pos1 t h) tt

abbrev all_busy : Symbol.Instance → Option Availability
all_busy i = some Availability.busy

abbrev at_date : String → ℕ → Symbol.Instance
at_date n k = record { variable = record { timeline = "main"; name = n }; at = k }

abbrev copying : Function Unit
copying = record { op = "copy"; args = at_date "y" 0 ∷ []; params = tt }

abbrev copy_update : Update Unit
copy_update = record { res = at_date "x" 1; init = none; usual = copying }

-- A time step is its name and the set of the instances that it computes.
abbrev sets : Steps Unit (TimeStep × List Symbol.Instance)
sets = record {
  make = λ ts. (ts, []);
  who = λ s. s.0;
  is_done = λ s. false;
  has_instance = λ i s. contains i s.1;
  add_update = λ u s. (s.0, u.res ∷ s.1);
}

abbrev nothing : Center Unit (TimeStep × List Symbol.Instance)
nothing = record { patterns = []; timesteps = [] }

abbrev with_x : Center Unit (TimeStep × List Symbol.Instance)
with_x =
    (add_update sets (λ v. 2) (checker_of positions all_busy type_checks) copy_update nothing).1

x_is_added :
    add_update sets (λ v. 2) (checker_of positions all_busy type_checks) copy_update nothing
    ≡ (none, with_x)
unfolding add_update type_checking check_function types_of check find type_eq name content_name
x_is_added = refl

add_update-IsRunnable_example :
    (t : DataType) × (positions copy_update.res.variable ≡ some t)
    × IsRunnable (checker_of positions all_busy type_checks) updates t copying
    × Unit {0}
add_update-IsRunnable_example =
    add_update-IsRunnable positions all_busy positions-IsType updates type_checks fill_factory-eq
      fill_checker-eq sets (λ v. 2) copy_update nothing with_x Availability.busy refl refl
      x_is_added
