-- ===== src/Job/Tests.antt =====
-- Two patterns of a timeline and one of another, and the theorems on them.
use cxsom.Prelude.{
  ℕ, String, true, false, if◌then◌else◌, none, some, List, [], ◌∷◌, ◌≡◌, refl, ◌=?◌, find, store,
  contains, arith, inl, ◌⊎◌,
}
use mathlib.Core.Option.{none-ne-some}
use cxsom.Symbol.{
  Variable, TimeStep, name_Eq, variable_Eq, instance_Eq, time_step_Eq, time_step_of,
  instance_eq_iff,
}
use cxsom.Symbol
use cxsom.Job.{
  negsuc, relative, ArgPattern, UpdatePattern, FunctionPattern, function_pattern, update_pattern,
  update_at, function_at, init_at, args_at, at, date_at,
}
use cxsom.Job.Center.{
  Steps, Center, instance_of, earliest, note_date, note_pattern, unprotected_realize_patterns,
}
use cxsom.Job.Realizing.{realize_patterns-find}
use cxsom.Job.Opening.{Laws, holds}
use cxsom.Job.Queuing.{Queuing, waits, realize_patterns-waits}

abbrev var : String → Variable
var n = record { timeline = "main"; name = n }

abbrev side : Variable
side = record { timeline = "side"; name = "z" }

abbrev before : String → ArgPattern
before n = record { variable = var n; t = relative (negsuc 0) }

-- x is computed from the date before, y from the second date before.
abbrev usual_x : FunctionPattern Unit
usual_x = function_pattern "copy" (before "x" ∷ []) tt

abbrev usual_y : FunctionPattern Unit
usual_y =
    function_pattern "copy"
      (record { variable = var "y"; t = relative (negsuc 1) } ∷ before "x" ∷ []) tt

abbrev pattern_x : UpdatePattern Unit
pattern_x = update_pattern (var "x") none usual_x 100

abbrev pattern_y : UpdatePattern Unit
pattern_y = update_pattern (var "y") (some usual_x) usual_y 100

abbrev pattern_z : UpdatePattern Unit
pattern_z = update_pattern side none usual_x 1

-- x has 3 dates, y has 5, and the variable of the other timeline has 2.
abbrev lengths : Variable → ℕ
lengths v = if v =? var "x" then 3 else if v =? var "y" then 5 else 2

-- A time step is its name and the set of the instances that it computes.
abbrev sets : Steps Unit (TimeStep × List Symbol.Instance)
sets = record {
  make = λ ts. (ts, []);
  who = λ s. s.0;
  is_done = λ s. false;
  has_instance = λ i s. contains i s.1;
  add_update = λ x s. (s.0, x.res ∷ s.1);
}

sets-Laws : Laws sets
unfolding contains
sets-Laws = record {
  made = λ k. refl;
  same = λ x s. refl;
  added = λ x s w. ground (arith, instance_eq_iff x.res x.res);
  kept = λ x i s h. ground arith;
}

abbrev center : Center Unit (TimeStep × List Symbol.Instance)
center = record {
  timesteps = [];
  patterns = (var "x", pattern_x) ∷ (var "y", pattern_y) ∷ (side, pattern_z) ∷ [];
}

realize_patterns-find_example :
    find
      (record { timeline = "main"; at = 5 })
      (unprotected_realize_patterns sets lengths center).timesteps
    ≡ none
unfolding earliest note_pattern note_date find store update_pattern
realize_patterns-find_example =
    realize_patterns-find sets lengths center (record { timeline = "main"; at = 5 })
      (refl, (refl, (refl, tt))) (inl (omega arith))

sets-Queuing : Queuing sets
unfolding contains
sets-Queuing = record {
  queued = λ i s. contains i s.1;
  fresh = λ i k. refl;
  added = λ x i s f t. t;
  kept = λ x i s h. ground arith;
}

realize_patterns-waits_example :
    let i = instance_of sets lengths pattern_x in
    let c' = unprotected_realize_patterns sets lengths center in
    (holds sets i c' ≡ true)
    × ((waits sets sets-Queuing i c' ≡ true) ⊎ (holds sets i center ≡ true))
unfolding earliest note_pattern note_date find store update_pattern function_pattern update_at
    function_at init_at args_at at date_at
realize_patterns-waits_example =
    realize_patterns-waits sets lengths sets-Laws sets-Queuing center 0 (var "x") pattern_x
      (λ k s e. absurd (none-ne-some s e)) refl refl refl refl
