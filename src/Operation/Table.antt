-- ===== src/Operation/Table.antt =====
-- cxsom/src/cxsomOperation.hpp: `UpdateFactory` and `TypeChecker`, the maps from the names of the
-- operations, and what they are filled with. A class stands for the function that makes its updates.
use cxsom.Prelude.{
  String, Bool, true, false, if◌then◌else◌, Option, none, some, ◌>>=◌, List, [], ◌∷◌, find, store,
}
use cxsom.Symbol.{name_Eq}
use cxsom.Types.{DataType}
use cxsom.Operation.Typing

-- The classes of the updates; `MinMax` has a Boolean parameter, `IS_MIN`.
pub data Class : Type 0 where
  copy average random random_when converge clear merge match_triangle match_gaussian : Class
  min_max : Bool → Class
  learn_triangle learn_gaussian argmax conv_argmax toward_argmax toward_conv_argmax : Class
  pair first second value_at : Class

abbrev pub UpdateFactory : Type 0
UpdateFactory = List (String × Class)

abbrev pub TypeChecker : Type 0
TypeChecker = List (String × Typing.Check)

-- What the factory and the type checker throw.
pub data OperationError : Type 0 where
  already_existing not_existing bad_typing : OperationError

-- `operator+=` of both; none is `already_existing_update` or `already_existing_type_checking`.
unfoldable pub add {ℓ} : {A : Type ℓ} → String × A → List (String × A) → Option (List (String × A))
add (op, a) table = elim (find op table) [ none ↦ some (store op a table) | some b ↦ none ]

-- A run of `+=`, in the order of the source.
unfoldable pub add_all {ℓ} :
    {A : Type ℓ} → List (String × A) → List (String × A) → Option (List (String × A))
add_all [] table = some table
add_all (e ∷ rest) table = add e table >>= add_all rest

-- `operator()` of the factory.
unfoldable pub make : UpdateFactory → String → Option Class
make factory op = find op factory

-- `operator()` of the type checker: the error that it throws, if any.
unfoldable pub check : TypeChecker → String → DataType → List DataType → Option OperationError
check checker op res args = elim (find op checker) [
  | none ↦ some OperationError.not_existing
  | some f ↦ if f res args then none else some OperationError.bad_typing
]

abbrev pub updates : List (String × Class)
updates =
    ("copy", Class.copy)
    ∷ ("min", Class.min_max true)
    ∷ ("max", Class.min_max false)
    ∷ ("average", Class.average)
    ∷ ("random", Class.random)
    ∷ ("random-when", Class.random_when)
    ∷ ("converge", Class.converge)
    ∷ ("clear", Class.clear)
    ∷ ("merge", Class.merge)
    ∷ ("match-triangle", Class.match_triangle)
    ∷ ("match-gaussian", Class.match_gaussian)
    ∷ ("learn-triangle", Class.learn_triangle)
    ∷ ("learn-gaussian", Class.learn_gaussian)
    ∷ ("argmax", Class.argmax)
    ∷ ("conv-argmax", Class.conv_argmax)
    ∷ ("toward-argmax", Class.toward_argmax)
    ∷ ("toward-conv-argmax", Class.toward_conv_argmax)
    ∷ ("pair", Class.pair)
    ∷ ("first", Class.first)
    ∷ ("second", Class.second)
    ∷ ("value-at", Class.value_at)
    ∷ []

abbrev pub type_checks : List (String × Typing.Check)
type_checks =
    ("copy", Typing.check_types_copy)
    ∷ ("min", Typing.check_types_min_max)
    ∷ ("max", Typing.check_types_min_max)
    ∷ ("average", Typing.check_types_average)
    ∷ ("random", Typing.check_types_random)
    ∷ ("random-when", Typing.check_types_random_when)
    ∷ ("converge", Typing.check_types_converge)
    ∷ ("clear", Typing.check_types_clear)
    ∷ ("merge", Typing.check_types_merge)
    ∷ ("match-triangle", Typing.check_types_match)
    ∷ ("match-gaussian", Typing.check_types_match)
    ∷ ("learn-triangle", Typing.check_types_learn)
    ∷ ("learn-gaussian", Typing.check_types_learn)
    ∷ ("argmax", Typing.check_types_argmax)
    ∷ ("conv-argmax", Typing.check_types_argmax)
    ∷ ("toward-argmax", Typing.check_types_toward_argmax)
    ∷ ("toward-conv-argmax", Typing.check_types_toward_conv_argmax)
    ∷ ("pair", Typing.check_types_pair)
    ∷ ("first", Typing.check_types_first)
    ∷ ("second", Typing.check_types_second)
    ∷ ("value-at", Typing.check_types_value_at)
    ∷ []

-- `fill`, of an empty factory and of an empty type checker.
unfoldable pub fill_factory : Option UpdateFactory
fill_factory = add_all updates []

unfoldable pub fill_checker : Option TypeChecker
fill_checker = add_all type_checks []
