-- ===== src/Operation/Adding.antt =====
-- cxsom/src/cxsomOperation.hpp with cxsomJobs.hpp: the type checker and the factory as the job centre
-- uses them, for the updates that it is given.
use mathlib.Core.Option.{some-injective, none-ne-some}
use cxsom.Prelude.{
  ℕ, ◌≡◌, sym, subst, ◌∙◌, String, Bool, true, false, Option, none, some, List, [], ◌∷◌, All, arith,
  Option-cases, inl, inr,
}
use cxsom.Symbol.{Variable}
use cxsom.Symbol
use cxsom.Data.{Availability, is_ready}
use cxsom.Types.{DataType, IsType}
use cxsom.Job.{Function, Update}
use cxsom.Job.Center.{Steps, Center}
use cxsom.Job.Adding.{
  Checker, types_of, check_function, check_init, type_checking, function_of, add_update,
  check_types,
}
use cxsom.Operation.Table.{
  Class, OperationError, UpdateFactory, TypeChecker, make, check, fill_factory, fill_checker,
}
use cxsom.Operation.Typed.{Typed}
use cxsom.Operation.Accepted.{filled-Typed, make-check}

-- A call of the type checker throws nothing.
abbrev pub passes : TypeChecker → String → DataType → List DataType → Bool
passes checker op r args = elim (check checker op r args) [ none ↦ true | some e ↦ false ]

-- What the job centre asks, from the types of the variables, the statuses of the instances, and a type
-- checker.
abbrev pub checker_of :
    (Variable → Option DataType)
    → (Symbol.Instance → Option Availability)
    → TypeChecker
    → Checker DataType
checker_of type_of availability checker = record {
  type_of = type_of;
  availability = availability;
  accepts = passes checker;
}

-- The arguments have types that the operation may read, and the factory makes such an operation.
pub record IsRunnable {P : Type 0} (checker : Checker DataType) (factory : UpdateFactory)
    (res : DataType) (f : Function P) : Type 0 where
  pub args : List DataType
  pub types : types_of checker (function_of checker f).1 ≡ some args
  pub typed : Typed f.op res args
  pub made : (c : Class) × (make factory f.op ≡ some c)

types_of-IsType :
    (checker : Checker DataType)
    → ((v : Variable) (t : DataType) → checker.type_of v ≡ some t → IsType t)
    → (vs : List Variable) (ts : List DataType) → types_of checker vs ≡ some ts
    → All IsType ts
unfolding types_of
types_of-IsType checker well [] ts h = subst (All IsType) (some-injective [] ts h) tt
types_of-IsType checker well (v ∷ vs) ts h = elim (Option-cases (checker.type_of v)) [
  | inl n ↦ absurd (ground (arith, n))
  | inr (t, e) ↦ elim (Option-cases (types_of checker vs)) [
    | inl n ↦ absurd (ground (arith, n, e))
    | inr (us, k) ↦
        let q : t ∷ us ≡ ts = ground (arith, e, k) in
        subst (All IsType) q (well v t e, types_of-IsType checker well vs us k)
  ]
]

-- What the type checker lets pass is made by the factory.
check-made :
    (factory : UpdateFactory) (checker : TypeChecker)
    → fill_factory ≡ some factory
    → fill_checker ≡ some checker
    → (r : DataType) (op : String) (ts : List DataType) → check checker op r ts ≡ none
    → (c : Class) × (make factory op ≡ some c)
check-made factory checker made filled r op ts k = elim (Option-cases (make factory op)) [
  | inl n ↦
      let m = (make-check factory checker op r ts made filled).0 n in
      absurd (none-ne-some OperationError.not_existing (sym k ∙ m))
  | inr (c, m) ↦ (c, m)
]

-- The initial function, if there is one.
abbrev pub IsInitRunnable :
    {P : Type 0} → Checker DataType → UpdateFactory → DataType → Option (Function P) → Type 0
IsInitRunnable checker factory res none = Unit
IsInitRunnable checker factory res (some f) = IsRunnable checker factory res f

module _ {P : Type 0} (type_of : Variable → Option DataType)
    (availability : Symbol.Instance → Option Availability)
    (well : (v : Variable) (t : DataType) → type_of v ≡ some t → IsType t) (factory : UpdateFactory)
    (checker : TypeChecker) (made : fill_factory ≡ some factory)
    (filled : fill_checker ≡ some checker) where
  check_function-check :
      (r : DataType) (f : Function P) (ts : List DataType)
      → let c = checker_of type_of availability checker in
        types_of c (function_of c f).1 ≡ some ts
        → check_function c r f.op (function_of c f).1 ≡ none
        → check checker f.op r ts ≡ none
  unfolding check_function
  check_function-check r f ts e h = elim (Option-cases (check checker f.op r ts)) [
    | inl n ↦ n
    | inr (x, n) ↦ absurd (ground (arith, e, h, n))
  ]

  check_function-IsRunnable :
      (r : DataType) (f : Function P)
      → IsType r
      → let c = checker_of type_of availability checker in
        check_function c r f.op (function_of c f).1 ≡ none → IsRunnable c factory r f
  unfolding check_function
  check_function-IsRunnable r f v h =
      let c = checker_of type_of availability checker in
      let vs = (function_of c f).1 in
      elim (Option-cases (types_of c vs)) [
        | inl n ↦ absurd (ground (arith, n))
        | inr (ts, e) ↦
            let w = types_of-IsType c well vs ts e in
            let k = check_function-check r f ts e h in
            record {
              args = ts;
              types = e;
              typed = (filled-Typed checker f.op r ts filled v w).0 k;
              made = check-made factory checker made filled r f.op ts k;
            }
      ]

  init-IsInitRunnable :
      (r : DataType) (init : Option (Function P))
      → IsType r
      → let c = checker_of type_of availability checker in
        check_init c r (elim init [ none ↦ none | some f ↦ some (function_of c f) ]) ≡ none
        → IsInitRunnable c factory r init
  init-IsInitRunnable r none v h = tt
  init-IsInitRunnable r (some f) v h = check_function-IsRunnable r f v h

  -- What passes `type_checking`.
  type_checking-IsRunnable :
      (v : Variable) (init : Option (Function P)) (usual : Function P)
      → let c = checker_of type_of availability checker in
        type_checking c v
            (elim init [ none ↦ none | some f ↦ some (function_of c f) ])
            (function_of c usual)
          ≡ none
        → (t : DataType) × (type_of v ≡ some t)
          × IsRunnable c factory t usual
          × IsInitRunnable c factory t init
  unfolding type_checking
  type_checking-IsRunnable v init usual h =
      let c = checker_of type_of availability checker in
      let i : Option (String × List Variable) = elim init [
        | none ↦ none
        | some f ↦ some (function_of c f)
      ] in
      elim (Option-cases (type_of v)) [
        | inl n ↦ absurd (ground (arith, n))
        | inr (t, e) ↦ elim (Option-cases (check_init c t i)) [
          | inr (x, m) ↦ absurd (ground (arith, e, m))
          | inl m ↦
              let k : check_function c t usual.op (function_of c usual).1 ≡ none =
                ground (arith, e, m) in
              (
                t,
                e,
                check_function-IsRunnable t usual (well v t e) k,
                init-IsInitRunnable t init (well v t e) m,
              )
        ]
      ]

  -- An update whose result is busy is added only if the factory makes its usual function, and the
  -- types of the result and of the arguments are typings of that operation; and so for its initial
  -- function when it has one. The type checker and the factory are the filled ones, and the types of
  -- the variables are those that the grammar can say.
  pub add_update-IsRunnable :
      {S : Type 0} (steps : Steps P S) (history_length : Variable → ℕ) (u : Update P)
      (c c' : Center P S) (a : Availability)
      → availability u.res ≡ some a
      → is_ready a ≡ false
      → add_update steps history_length (checker_of type_of availability checker) u c ≡ (none, c')
      → (t : DataType) × (type_of u.res.variable ≡ some t)
        × IsRunnable (checker_of type_of availability checker) factory t u.usual
        × IsInitRunnable (checker_of type_of availability checker) factory t u.init
  unfolding add_update
  add_update-IsRunnable steps history_length u c c' a e n h =
      let k = checker_of type_of availability checker in
      elim (Option-cases (check_types steps history_length k u)) [
        | inr (x, m) ↦ absurd (ground (arith, e, m))
        | inl m ↦ type_checking-IsRunnable u.res.variable u.init u.usual m
      ]
