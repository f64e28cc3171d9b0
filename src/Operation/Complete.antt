-- ===== src/Operation/Complete.antt =====
-- cxsom/src/cxsomOperation.hpp: every typing of the relation passes its check.
use cxsom.Prelude.{
  ℕ, ◌≡◌, refl, sym, subst, String, true, ◌&&◌, none, List, [], ◌∷◌, All, arith, find,
}
use cxsom.Symbol.{name_Eq}
use cxsom.Types.{
  Content, DataType, name, content_name, is_map_of, type_eq, IsType, IsContent, is_scalar,
}
use cxsom.Operation.Typing.{
  all_scalars, all_alike, fits_weights, check_types_match, check_types_learn, check_types_argmax,
  check_types_value_at,
}
use cxsom.Operation.Table.{check, type_checks}
use cxsom.Operation.Typed.{Typed, Matching, Indexing, Pointing, scalar}
use cxsom.Operation.Sound.{text_eq_refl}

type_eq_refl : (t : DataType) → type_eq t t ≡ true
unfolding type_eq
type_eq_refl t = text_eq_refl (name t)

all_scalars-true : (args : List DataType) → All (λ a. a ≡ scalar) args → all_scalars args ≡ true
all_scalars-true [] h = refl
all_scalars-true (a ∷ args) h =
    subst (λ s. (is_scalar s && all_scalars args) ≡ true) (sym h.0) (all_scalars-true args h.1)

all_alike-true :
    (t : DataType) (args : List DataType) → All (λ a. a ≡ t) args → all_alike t args ≡ true
all_alike-true t [] h = refl
all_alike-true t (a ∷ args) h =
    subst (λ s. (type_eq s t && all_alike t args) ≡ true) (sym h.0)
      (ground (arith, type_eq_refl t, all_alike-true t args h.1))

fits_weights1-true :
    (c : Content) (s : ℕ) → IsContent c → fits_weights (DataType.plain c) (DataType.map1 c s) ≡ true
unfolding is_map_of content_name
fits_weights1-true Content.scalar s v = refl
fits_weights1-true Content.pos1 s v = refl
fits_weights1-true Content.pos2 s v = refl
fits_weights1-true (Content.array n) s v = ground arith

fits_weights2-true :
    (c : Content) (s : ℕ) → IsContent c → fits_weights (DataType.plain c) (DataType.map2 c s) ≡ true
unfolding is_map_of content_name
fits_weights2-true Content.scalar s v = refl
fits_weights2-true Content.pos1 s v = refl
fits_weights2-true Content.pos2 s v = refl
fits_weights2-true (Content.array n) s v = ground arith

Matching-check :
    (r a w : DataType) → IsType a → Matching r a w → check_types_match r (a ∷ w ∷ []) ≡ true
unfolding is_map_of name content_name
Matching-check _ _ _ v (Matching.line c s) =
    ground (arith, fits_weights1-true c s v, text_eq_refl (content_name c))
Matching-check _ _ _ v (Matching.square c s) =
    ground (arith, fits_weights2-true c s v, text_eq_refl (content_name c))

Indexing-learn :
    (a w p : DataType) → IsType a → Indexing a w p → check_types_learn w (a ∷ w ∷ p ∷ []) ≡ true
Indexing-learn _ _ _ v (Indexing.line c s) =
    ground (arith, fits_weights1-true c s v, type_eq_refl (DataType.map1 c s))
Indexing-learn _ _ _ v (Indexing.square c s) =
    ground (arith, fits_weights2-true c s v, type_eq_refl (DataType.map2 c s))

Indexing-value_at : (r m p : DataType) → Indexing r m p → check_types_value_at r (m ∷ p ∷ []) ≡ true
unfolding is_map_of name
Indexing-value_at _ _ _ (Indexing.line c s) = text_eq_refl (content_name c)
Indexing-value_at _ _ _ (Indexing.square c s) = text_eq_refl (content_name c)

Pointing-argmax : (p m : DataType) → Pointing p m → check_types_argmax p (m ∷ []) ≡ true
unfolding is_map_of content_name
Pointing-argmax _ _ (Pointing.line s) = refl
Pointing-argmax _ _ (Pointing.square s) = refl

-- The filled type checker accepts a typing of the relation.
pub Typed-check :
    (op : String) (r : DataType) (args : List DataType)
    → All IsType args
    → Typed op r args
    → check type_checks op r args ≡ none
unfolding check find is_map_of content_name
Typed-check _ _ _ v (Typed.copy t) = ground (arith, type_eq_refl t)
Typed-check _ _ _ v (Typed.min args h) = ground (arith, all_scalars-true args h)
Typed-check _ _ _ v (Typed.max args h) = ground (arith, all_scalars-true args h)
Typed-check _ _ _ v (Typed.average t args h) = ground (arith, all_alike-true t args h)
Typed-check _ _ _ v (Typed.random t) = refl
Typed-check _ _ _ v (Typed.random_when t a args) = refl
Typed-check _ _ _ v (Typed.converge args) = refl
Typed-check _ _ _ v (Typed.clear t) = refl
Typed-check _ _ _ v (Typed.merge1 s) = ground (arith, type_eq_refl (DataType.map1 Content.scalar s))
Typed-check _ _ _ v (Typed.merge2 s) = ground (arith, type_eq_refl (DataType.map2 Content.scalar s))
Typed-check _ _ _ v (Typed.match_triangle r a w h) = ground (arith, Matching-check r a w v.0 h)
Typed-check _ _ _ v (Typed.match_gaussian r a w h) = ground (arith, Matching-check r a w v.0 h)
Typed-check _ _ _ v (Typed.learn_triangle a w p h) = ground (arith, Indexing-learn a w p v.0 h)
Typed-check _ _ _ v (Typed.learn_gaussian a w p h) = ground (arith, Indexing-learn a w p v.0 h)
Typed-check _ _ _ v (Typed.argmax p m h) = ground (arith, Pointing-argmax p m h)
Typed-check _ _ _ v (Typed.conv_argmax p m h) = ground (arith, Pointing-argmax p m h)
Typed-check _ _ _ v (Typed.toward_argmax p m h) =
    ground (arith, Pointing-argmax p m h, type_eq_refl p)
Typed-check _ _ _ v (Typed.toward_conv_argmax p m h) =
    ground (arith, Pointing-argmax p m h, type_eq_refl p)
Typed-check _ _ _ v (Typed.pair b) = refl
Typed-check _ _ _ v Typed.first = refl
Typed-check _ _ _ v Typed.second = refl
Typed-check _ _ _ v (Typed.value_at r m p h) = ground (arith, Indexing-value_at r m p h)
