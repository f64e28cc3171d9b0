-- ===== src/Job/Adding.antt =====
-- cxsom/src/cxsomJobs.hpp: the updates and the patterns that a client adds, with the checking of their types.
use cxsom.Prelude.{
  ℕ, String, Bool, true, false, if◌then◌else◌, Option, none, some, List, [], ◌∷◌, map, ◌≡◌, sym,
  subst, arith, Option-cases, inl, inr, ◌>>=◌,
}
use cxsom.Symbol.{Variable, TimeStep, time_step_of, time_step_Eq}
use cxsom.Symbol
use cxsom.Data.{Availability, is_ready}
use cxsom.Job.{Function, Update, FunctionPattern, UpdatePattern}
use cxsom.Job.Center.{Steps, Center, check_and_get, put_update, add_pattern}
use cxsom.Job.Opening.{Laws, holds, IsPlaced, put_update-new, found, check_and_get-IsPlaced}

-- `error::unknown_variable` of the data centre, and what the type checker throws.
pub data CheckError : Type 0 where
  unknown_variable bad_types : CheckError

-- What the job centre asks of the data centre, and the type checker that it was made with: `type_of`
-- and `availability` are none when the variable is not known, `accepts` is false when it throws.
pub record Checker (T : Type 0) : Type 0 where
  pub type_of : Variable → Option T
  pub availability : Symbol.Instance → Option Availability
  pub accepts : String → T → List T → Bool

module _ {T : Type 0} (checker : Checker T) where
  -- `arg_types_tmp`
  unfoldable pub types_of : List Variable → Option (List T)
  types_of [] = some []
  types_of (v ∷ rest) = do t ← checker.type_of v; ts ← types_of rest; some (t ∷ ts)

  -- The checking of one function.
  unfoldable pub check_function : T → String → List Variable → Option CheckError
  check_function res_type op args = elim (types_of args) [
    | none ↦ some CheckError.unknown_variable
    | some ts ↦ if checker.accepts op res_type ts then none else some CheckError.bad_types
  ]

  abbrev pub check_init : T → Option (String × List Variable) → Option CheckError
  check_init t none = none
  check_init t (some f) = check_function t f.0 f.1

  -- `type_checking`, from the result, the init if there is one, and the usual function.
  unfoldable pub type_checking :
      Variable → Option (String × List Variable) → String × List Variable → Option CheckError
  type_checking res init usual = elim (checker.type_of res) [
    | none ↦ some CheckError.unknown_variable
    | some t ↦ elim (check_init t init) [
      | some e ↦ some e
      | none ↦ check_function t usual.0 usual.1
    ]
  ]

  abbrev pub function_of : {P : Type 0} → Function P → String × List Variable
  function_of f = (f.op, map (λ i. i.variable) f.args)

  abbrev pub pattern_of : {P : Type 0} → FunctionPattern P → String × List Variable
  pattern_of f = (f.op, map (λ a. a.variable) f.args)

module _ {P S T : Type 0} (steps : Steps P S) (history_length : Variable → ℕ)
    (checker : Checker T) where
  abbrev pub check_types : Update P → Option CheckError
  check_types u =
      type_checking checker u.res.variable
        (elim u.init [ none ↦ none | some f ↦ some (function_of checker f) ])
        (function_of checker u.usual)

  -- `operator+=` of an update. One whose result is ready is not added.
  unfoldable pub add_update : Update P → Center P S → Option CheckError × Center P S
  add_update u c = elim (checker.availability u.res) [
    | none ↦ (some CheckError.unknown_variable, c)
    | some a ↦ if is_ready a then (none, c) else elim (check_types u) [
      | some e ↦ (some e, c)
      | none ↦
          let (ts, c') = check_and_get steps history_length (time_step_of u.res) c in
          (none, put_update steps history_length (some u) (time_step_of u.res) ts c')
    ]
  ]

  -- `operator+=` of a pattern.
  unfoldable pub add_checked_pattern : UpdatePattern P → Center P S → Option CheckError × Center P S
  add_checked_pattern u c =
      elim (type_checking checker u.res
        (elim u.init [ none ↦ none | some f ↦ some (pattern_of checker f) ])
        (pattern_of checker u.usual)) [
          | some e ↦ (some e, c)
          | none ↦ (none, add_pattern steps history_length u c)
        ]

  -- An update that is added, and not refused or ready, stands in the time step of its date, if the time
  -- steps keep what they are given and stand under their names.
  pub add_update-holds :
      (laws : Laws steps) (u : Update P) (c c' : Center P S) (a : Availability)
      → IsPlaced steps c
      → checker.availability u.res ≡ some a
      → is_ready a ≡ false
      → add_update u c ≡ (none, c')
      → holds steps u.res c' ≡ true
  unfolding add_update
  add_update-holds laws u c c' a p e n h =
      let k = time_step_of u.res in
      let (ts, d) = check_and_get steps history_length k c in
      elim (Option-cases (check_types u)) [
        | inr (x, f) ↦ ground arith
        | inl f ↦
            let q : c' ≡ put_update steps history_length (some u) k ts d = ground arith in
            subst (λ b. holds steps u.res b ≡ true) (sym q)
              (put_update-new steps history_length laws u ts d (
                check_and_get-IsPlaced steps history_length laws k c p k ts
                  (found steps history_length laws k c)))
      ]
