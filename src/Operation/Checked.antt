-- ===== src/Operation/Checked.antt =====
-- cxsom/src/cxsomOperation.hpp: the type checker, once filled, accepts exactly the typings of the
-- relation, and the factory, once filled, makes what it accepts.
use cxsom.Prelude.{◌≡◌, sym, subst, String, true, List, [], ◌∷◌, All, arith}
use cxsom.Symbol.{name_Eq}
use cxsom.Types.{DataType, codes, is_map_of, IsType}
use cxsom.Operation.Typing.{
  Check, check_types_copy, check_types_min_max, check_types_average, check_types_random,
  check_types_random_when, check_types_converge, check_types_clear, check_types_merge,
  check_types_match, check_types_learn, check_types_argmax, check_types_toward_argmax,
  check_types_pair, check_types_first, check_types_value_at,
}
use cxsom.Operation.Table.{type_checks}
use cxsom.Operation.Typed.{Typed, Matching, Indexing, Pointing, scalar, pos1, pos2}
use cxsom.Operation.Sound.{
  check_types_match-Matching, fits-Indexing, check_types_value_at-Indexing,
  check_types_argmax-Pointing, all_scalars-All, all_alike-All, type_eq-≡, is_scalar-≡, is_pos1d-≡,
  is_pos2d-≡, scalar-≡,
}

-- A check passes the typings of an operation only.
abbrev pub IsSound : String → Check → Type 0
IsSound op f =
    (r : DataType) (args : List DataType)
    → IsType r
    → All IsType args
    → f r args ≡ true
    → Typed op r args

copy-IsSound : IsSound "copy" check_types_copy
copy-IsSound r [] v w h = ground arith
copy-IsSound r (a ∷ []) v w h =
    subst (λ b. Typed "copy" r (b ∷ [])) (type_eq-≡ r a v w.0 h) (Typed.copy r)
copy-IsSound r (a ∷ b ∷ args) v w h = ground arith

min_max-IsSound :
    (op : String)
    → ((args : List DataType) → All (λ a. a ≡ scalar) args → Typed op scalar (scalar ∷ args))
    → IsSound op check_types_min_max
min_max-IsSound op typed r [] v w h = ground arith
min_max-IsSound op typed r (a ∷ args) v w h =
    subst (λ s. Typed op s (a ∷ args)) (sym (is_scalar-≡ r (ground arith)))
      (subst (λ b. Typed op scalar (b ∷ args)) (sym (is_scalar-≡ a (ground arith)))
        (typed args (all_scalars-All args (ground arith))))

average-IsSound : IsSound "average" check_types_average
average-IsSound r args v w h = Typed.average r args (all_alike-All r args v w h)

random-IsSound : IsSound "random" check_types_random
random-IsSound r [] v w h = Typed.random r
random-IsSound r (a ∷ args) v w h = ground arith

random_when-IsSound : IsSound "random-when" check_types_random_when
random_when-IsSound r [] v w h = ground arith
random_when-IsSound r (a ∷ args) v w h = Typed.random_when r a args

converge-IsSound : IsSound "converge" check_types_converge
converge-IsSound r args v w h =
    subst (λ s. Typed "converge" s args) (sym (is_scalar-≡ r h)) (Typed.converge args)

clear-IsSound : IsSound "clear" check_types_clear
clear-IsSound r [] v w h = Typed.clear r
clear-IsSound r (a ∷ args) v w h = ground arith

-- A map of scalars is of one dimension or of two.
merge-scalars : (r : DataType) → is_map_of (codes "Scalar") r ≡ true → Typed "merge" r (r ∷ r ∷ [])
unfolding is_map_of
merge-scalars (DataType.plain c) h = ground arith
merge-scalars (DataType.map1 c s) h =
    subst (λ d. let m = DataType.map1 d s in Typed "merge" m (m ∷ m ∷ [])) (sym (scalar-≡ c h))
      (Typed.merge1 s)
merge-scalars (DataType.map2 c s) h =
    subst (λ d. let m = DataType.map2 d s in Typed "merge" m (m ∷ m ∷ [])) (sym (scalar-≡ c h))
      (Typed.merge2 s)

merge-IsSound : IsSound "merge" check_types_merge
merge-IsSound r (a ∷ b ∷ []) v w h =
    subst (λ x. Typed "merge" r (x ∷ b ∷ [])) (type_eq-≡ r a v w.0 (ground arith))
      (subst (λ x. Typed "merge" r (r ∷ x ∷ [])) (type_eq-≡ r b v w.1.0 (ground arith))
        (merge-scalars r (ground arith)))
merge-IsSound r [] v w h = ground arith
merge-IsSound r (a ∷ []) v w h = ground arith
merge-IsSound r (a ∷ b ∷ c ∷ args) v w h = ground arith

match-IsSound :
    (op : String)
    → ((r a w : DataType) → Matching r a w → Typed op r (a ∷ w ∷ []))
    → IsSound op check_types_match
match-IsSound op typed r (a ∷ b ∷ []) v w h =
    typed r a b (check_types_match-Matching r a b w.0 w.1.0 h)
match-IsSound op typed r [] v w h = ground arith
match-IsSound op typed r (a ∷ []) v w h = ground arith
match-IsSound op typed r (a ∷ b ∷ c ∷ args) v w h = ground arith

learn-IsSound :
    (op : String)
    → ((a w p : DataType) → Indexing a w p → Typed op w (a ∷ w ∷ p ∷ []))
    → IsSound op check_types_learn
learn-IsSound op typed r (a ∷ b ∷ p ∷ []) v w h =
    subst (λ x. Typed op x (a ∷ b ∷ p ∷ [])) (sym (type_eq-≡ r b v w.1.0 (ground arith)))
      (typed a b p (fits-Indexing a b p (ground arith) (ground arith)))
learn-IsSound op typed r [] v w h = ground arith
learn-IsSound op typed r (a ∷ []) v w h = ground arith
learn-IsSound op typed r (a ∷ b ∷ []) v w h = ground arith
learn-IsSound op typed r (a ∷ b ∷ c ∷ d ∷ args) v w h = ground arith

argmax-IsSound :
    (op : String)
    → ((p m : DataType) → Pointing p m → Typed op p (m ∷ []))
    → IsSound op check_types_argmax
argmax-IsSound op typed r (m ∷ []) v w h = typed r m (check_types_argmax-Pointing r m h)
argmax-IsSound op typed r [] v w h = ground arith
argmax-IsSound op typed r (a ∷ b ∷ args) v w h = ground arith

toward-IsSound :
    (op : String)
    → ((p m : DataType) → Pointing p m → Typed op p (m ∷ p ∷ []))
    → IsSound op check_types_toward_argmax
toward-IsSound op typed r (m ∷ p ∷ []) v w h =
    subst (λ x. Typed op r (m ∷ x ∷ [])) (type_eq-≡ r p v w.1.0 (ground arith))
      (typed r m (check_types_argmax-Pointing r m (ground arith)))
toward-IsSound op typed r [] v w h = ground arith
toward-IsSound op typed r (a ∷ []) v w h = ground arith
toward-IsSound op typed r (a ∷ b ∷ c ∷ args) v w h = ground arith

pair-IsSound : IsSound "pair" check_types_pair
pair-IsSound r (a ∷ b ∷ []) v w h =
    subst (λ x. Typed "pair" x (a ∷ b ∷ [])) (sym (is_pos2d-≡ r (ground arith)))
      (subst (λ x. Typed "pair" pos2 (x ∷ b ∷ [])) (sym (is_pos1d-≡ a (ground arith)))
        (Typed.pair b))
pair-IsSound r [] v w h = ground arith
pair-IsSound r (a ∷ []) v w h = ground arith
pair-IsSound r (a ∷ b ∷ c ∷ args) v w h = ground arith

first-IsSound : (op : String) → Typed op pos1 (pos2 ∷ []) → IsSound op check_types_first
first-IsSound op typed r (a ∷ []) v w h =
    subst (λ x. Typed op x (a ∷ [])) (sym (is_pos1d-≡ r (ground arith)))
      (subst (λ x. Typed op pos1 (x ∷ [])) (sym (is_pos2d-≡ a (ground arith))) typed)
first-IsSound op typed r [] v w h = ground arith
first-IsSound op typed r (a ∷ b ∷ args) v w h = ground arith

value_at-IsSound : IsSound "value-at" check_types_value_at
value_at-IsSound r (m ∷ p ∷ []) v w h =
    Typed.value_at r m p (check_types_value_at-Indexing r m p v w.0 h)
value_at-IsSound r [] v w h = ground arith
value_at-IsSound r (a ∷ []) v w h = ground arith
value_at-IsSound r (a ∷ b ∷ c ∷ args) v w h = ground arith

-- A predicate of every entry, entry by entry.
infixr 20 ◌▸◌
abbrev ◌▸◌ {ℓ κ} : {A : Type ℓ} {B : Type κ} → A → B → A × B
a ▸ b = (a, b)

pub type_checks-IsSound : All (λ e. IsSound e.0 e.1) type_checks
type_checks-IsSound =
    copy-IsSound
    ▸ min_max-IsSound "min" Typed.min
    ▸ min_max-IsSound "max" Typed.max
    ▸ average-IsSound
    ▸ random-IsSound
    ▸ random_when-IsSound
    ▸ converge-IsSound
    ▸ clear-IsSound
    ▸ merge-IsSound
    ▸ match-IsSound "match-triangle" Typed.match_triangle
    ▸ match-IsSound "match-gaussian" Typed.match_gaussian
    ▸ learn-IsSound "learn-triangle" Typed.learn_triangle
    ▸ learn-IsSound "learn-gaussian" Typed.learn_gaussian
    ▸ argmax-IsSound "argmax" Typed.argmax
    ▸ argmax-IsSound "conv-argmax" Typed.conv_argmax
    ▸ toward-IsSound "toward-argmax" Typed.toward_argmax
    ▸ toward-IsSound "toward-conv-argmax" Typed.toward_conv_argmax
    ▸ pair-IsSound
    ▸ first-IsSound "first" Typed.first
    ▸ first-IsSound "second" Typed.second
    ▸ value_at-IsSound
    ▸ tt
