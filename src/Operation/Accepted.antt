-- ===== src/Operation/Accepted.antt =====
-- cxsom/src/cxsomOperation.hpp and cxsomJobs.hpp: what the filled type checker accepts, for itself and
-- as the type checker of the job centre.
use cxsom.Prelude.{
  ◌≡◌, refl, sym, subst, ◌∙◌, ◌↔◌, String, false, none, some, List, [], ◌∷◌, map, All, arith, find,
  store, find-All, Option-cases, inl, inr, contains, Bool-cases,
}
use mathlib.Core.Option.{some-injective}
use cxsom.Symbol.{name_Eq}
use cxsom.Types.{DataType, IsType}
use cxsom.Operation.Table.{
  OperationError, UpdateFactory, TypeChecker, add, add_all, make, check, updates, type_checks,
  fill_factory, fill_checker,
}
use cxsom.Operation.Typed.{Typed}
use cxsom.Operation.Checked.{IsSound, type_checks-IsSound}
use cxsom.Operation.Complete.{Typed-check}

pub fill_factory-eq : fill_factory ≡ some updates
unfolding fill_factory add_all add find store
fill_factory-eq = refl

pub fill_checker-eq : fill_checker ≡ some type_checks
unfolding fill_checker add_all add find store
fill_checker-eq = refl

check-sound :
    (op : String) (r : DataType) (args : List DataType)
    → IsType r
    → All IsType args
    → check type_checks op r args ≡ none
    → Typed op r args
unfolding check
check-sound op r args v w h = elim (Option-cases (find op type_checks)) [
  | inl n ↦ absurd (ground (arith, n))
  | inr (f, e) ↦ find-All IsSound type_checks op f type_checks-IsSound e r args v w (ground arith)
]

-- The type checker that `fill` gives, and the relation.
pub filled-Typed :
    (checker : TypeChecker) (op : String) (r : DataType) (args : List DataType)
    → fill_checker ≡ some checker
    → IsType r
    → All IsType args
    → (check checker op r args ≡ none) ↔ Typed op r args
filled-Typed checker op r args e v w =
    subst (λ t. (check t op r args ≡ none) ↔ Typed op r args)
      (some-injective type_checks checker (sym fill_checker-eq ∙ e))
      (check-sound op r args v w, Typed-check op r args w)

-- `fill` of a type checker throws nothing: it gives one. For a result and arguments whose types the
-- grammar can say, this type checker lets a call pass exactly if it is one of the typings of the
-- relation `Typed`, whatever the name of the operation.
pub check-Typed :
    (op : String) (r : DataType) (args : List DataType)
    → IsType r
    → All IsType args
    → (checker : TypeChecker) × (fill_checker ≡ some checker)
      × ((check checker op r args ≡ none) ↔ Typed op r args)
check-Typed op r args v w =
    (type_checks, fill_checker-eq, filled-Typed type_checks op r args fill_checker-eq v w)

find-contains :
    {A : Type 0} (k : String) (m : List (String × A))
    → (find k m ≡ none) ↔ (contains k (map (λ e. e.0) m) ≡ false)
unfolding find contains
find-contains k [] = ground arith
find-contains k ((j, a) ∷ rest) = ground (arith, find-contains k rest, (name_Eq).beq_iff j k)

-- Two tables of the same names.
find-names :
    {A B : Type 0} (k : String) (m : List (String × A)) (n : List (String × B))
    → map (λ e. e.0) m ≡ map (λ e. e.0) n
    → (find k m ≡ none) ↔ (find k n ≡ none)
find-names k m n h =
    let a = find-contains k m in
    let b = subst (λ ks. (find k n ≡ none) ↔ (contains k ks ≡ false)) (sym h) (find-contains k n) in
    (λ x. b.1 (a.0 x), λ x. a.1 (b.0 x))

check-none :
    (op : String) (r : DataType) (args : List DataType)
    → (check type_checks op r args ≡ some OperationError.not_existing)
      ↔ (find op type_checks ≡ none)
unfolding check
check-none op r args = elim (Option-cases (find op type_checks)) [
  | inl n ↦ ground (arith, n)
  | inr (f, e) ↦ elim (Bool-cases (f r args)) [
    | inl t ↦ ground (arith, e, t)
    | inr t ↦ ground (arith, e, t)
  ]
]

-- `fill` of the factory throws nothing, and the factory throws that there is no such operation exactly
-- if the type checker does, whatever the types.
pub make-check :
    (factory : UpdateFactory) (checker : TypeChecker) (op : String) (r : DataType)
    (args : List DataType)
    → fill_factory ≡ some factory
    → fill_checker ≡ some checker
    → (make factory op ≡ none) ↔ (check checker op r args ≡ some OperationError.not_existing)
unfolding make
make-check factory checker op r args e k =
    let f = some-injective updates factory (sym fill_factory-eq ∙ e) in
    let c = some-injective type_checks checker (sym fill_checker-eq ∙ k) in
    let a = find-names op updates type_checks refl in
    let b = check-none op r args in
    subst (λ t. (find op t ≡ none) ↔ (check checker op r args ≡ some OperationError.not_existing)) f
      (subst
        (λ t. (find op updates ≡ none) ↔ (check t op r args ≡ some OperationError.not_existing)) c
        (λ x. b.1 (a.0 x), λ x. a.1 (b.0 x)))
