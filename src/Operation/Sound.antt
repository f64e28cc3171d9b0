-- ===== src/Operation/Sound.antt =====
-- cxsom/src/cxsomOperation.hpp: every typing that passes a check is one of the typings of the relation,
-- as the name of a type gives the type back.
use mathlib.Core.Option.{some-injective}
use cxsom.Prelude.{ℕ, ◌≡◌, refl, sym, ap, subst, ◌∙◌, true, List, [], ◌∷◌, All, arith}
use cxsom.Symbol.{name_Eq}
use cxsom.Types.{
  Content, DataType, codes, name, content_name, is_map_of, type_eq, text_eq, IsType, IsContent,
  is_pos1d, is_pos2d, is_scalar,
}
use cxsom.Types.Grammar.{make}
use cxsom.Types.RoundTrip.{make-name}
use cxsom.Operation.Typing.{
  all_scalars, all_alike, fits_weights, fits_position, check_types_match, check_types_argmax,
  check_types_value_at,
}
use cxsom.Operation.Typed.{Matching, Indexing, Pointing, scalar, pos1, pos2}

text_eq-≡ : (xs ys : List ℕ) → text_eq xs ys ≡ true → xs ≡ ys
text_eq-≡ [] [] h = refl
text_eq-≡ (x ∷ xs) (y ∷ ys) h = ground (arith, text_eq-≡ xs ys)
text_eq-≡ [] (y ∷ ys) h = ground arith
text_eq-≡ (x ∷ xs) [] h = ground arith

pub text_eq_refl : (xs : List ℕ) → text_eq xs xs ≡ true
text_eq_refl [] = refl
text_eq_refl (x ∷ xs) = ground (arith, text_eq_refl xs)

-- Two types of one name are one type.
pub type_eq-≡ : (s t : DataType) → IsType s → IsType t → type_eq s t ≡ true → s ≡ t
unfolding type_eq
type_eq-≡ s t v w h =
    some-injective s t
      (sym (make-name s v) ∙ (ap make (text_eq-≡ (name s) (name t) h) ∙ make-name t w))

content_eq-≡ :
    (c : Content) (t : DataType)
    → IsContent c
    → IsType t
    → text_eq (name t) (content_name c) ≡ true
    → t ≡ DataType.plain c
unfolding name type_eq
content_eq-≡ c t v w h = type_eq-≡ t (DataType.plain c) w v h

pub scalar-≡ : (c : Content) → text_eq (codes "Scalar") (content_name c) ≡ true → c ≡ Content.scalar
unfolding content_name
scalar-≡ Content.scalar h = refl
scalar-≡ Content.pos1 h = ground arith
scalar-≡ Content.pos2 h = ground arith
scalar-≡ (Content.array n) h = ground arith

pos1-≡ : (c : Content) → text_eq (codes "Pos1D") (content_name c) ≡ true → c ≡ Content.pos1
unfolding content_name
pos1-≡ Content.scalar h = ground arith
pos1-≡ Content.pos1 h = refl
pos1-≡ Content.pos2 h = ground arith
pos1-≡ (Content.array n) h = ground arith

pos2-≡ : (c : Content) → text_eq (codes "Pos2D") (content_name c) ≡ true → c ≡ Content.pos2
unfolding content_name
pos2-≡ Content.scalar h = ground arith
pos2-≡ Content.pos1 h = ground arith
pos2-≡ Content.pos2 h = refl
pos2-≡ (Content.array n) h = ground arith

pub is_scalar-≡ : (t : DataType) → is_scalar t ≡ true → t ≡ scalar
is_scalar-≡ (DataType.plain Content.scalar) h = refl
is_scalar-≡ (DataType.plain Content.pos1) h = ground arith
is_scalar-≡ (DataType.plain Content.pos2) h = ground arith
is_scalar-≡ (DataType.plain (Content.array n)) h = ground arith
is_scalar-≡ (DataType.map1 c s) h = ground arith
is_scalar-≡ (DataType.map2 c s) h = ground arith

pub is_pos1d-≡ : (t : DataType) → is_pos1d t ≡ true → t ≡ pos1
is_pos1d-≡ (DataType.plain Content.scalar) h = ground arith
is_pos1d-≡ (DataType.plain Content.pos1) h = refl
is_pos1d-≡ (DataType.plain Content.pos2) h = ground arith
is_pos1d-≡ (DataType.plain (Content.array n)) h = ground arith
is_pos1d-≡ (DataType.map1 c s) h = ground arith
is_pos1d-≡ (DataType.map2 c s) h = ground arith

pub is_pos2d-≡ : (t : DataType) → is_pos2d t ≡ true → t ≡ pos2
is_pos2d-≡ (DataType.plain Content.scalar) h = ground arith
is_pos2d-≡ (DataType.plain Content.pos1) h = ground arith
is_pos2d-≡ (DataType.plain Content.pos2) h = refl
is_pos2d-≡ (DataType.plain (Content.array n)) h = ground arith
is_pos2d-≡ (DataType.map1 c s) h = ground arith
is_pos2d-≡ (DataType.map2 c s) h = ground arith

-- The two maps are of one kind and one side, and the result holds scalars.
pub check_types_match-Matching :
    (r a w : DataType)
    → IsType a
    → IsType w
    → check_types_match r (a ∷ w ∷ []) ≡ true
    → Matching r a w
unfolding is_map_of
check_types_match-Matching (DataType.map1 d n) a (DataType.map1 c s) v u h =
    let r_eq : DataType.map1 Content.scalar s ≡ DataType.map1 d n = ground (arith, scalar-≡ d) in
    let a_eq : a ≡ DataType.plain c = content_eq-≡ c a u.0 v (ground arith) in
    subst (λ r. Matching r a (DataType.map1 c s)) r_eq
      (subst (λ b. Matching (DataType.map1 Content.scalar s) b (DataType.map1 c s)) (sym a_eq)
        (Matching.line c s))
check_types_match-Matching (DataType.map2 d n) a (DataType.map2 c s) v u h =
    let r_eq : DataType.map2 Content.scalar s ≡ DataType.map2 d n = ground (arith, scalar-≡ d) in
    let a_eq : a ≡ DataType.plain c = content_eq-≡ c a u.0 v (ground arith) in
    subst (λ r. Matching r a (DataType.map2 c s)) r_eq
      (subst (λ b. Matching (DataType.map2 Content.scalar s) b (DataType.map2 c s)) (sym a_eq)
        (Matching.square c s))
check_types_match-Matching (DataType.plain d) a w v u h = ground arith
check_types_match-Matching (DataType.map1 d n) a (DataType.plain c) v u h = ground arith
check_types_match-Matching (DataType.map1 d n) a (DataType.map2 c s) v u h = ground arith
check_types_match-Matching (DataType.map2 d n) a (DataType.plain c) v u h = ground arith
check_types_match-Matching (DataType.map2 d n) a (DataType.map1 c s) v u h = ground arith

fits_weights1-≡ :
    (a : DataType) (c : Content) (s : ℕ)
    → fits_weights a (DataType.map1 c s) ≡ true
    → a ≡ DataType.plain c
unfolding is_map_of
fits_weights1-≡ (DataType.plain Content.scalar) c s h = ground (arith, scalar-≡ c)
fits_weights1-≡ (DataType.plain Content.pos1) c s h = ground (arith, pos1-≡ c)
fits_weights1-≡ (DataType.plain Content.pos2) c s h = ground (arith, pos2-≡ c)
fits_weights1-≡ (DataType.plain (Content.array n)) Content.scalar s h = ground arith
fits_weights1-≡ (DataType.plain (Content.array n)) Content.pos1 s h = ground arith
fits_weights1-≡ (DataType.plain (Content.array n)) Content.pos2 s h = ground arith
fits_weights1-≡ (DataType.plain (Content.array n)) (Content.array m) s h = ground arith
fits_weights1-≡ (DataType.map1 d n) c s h = ground arith
fits_weights1-≡ (DataType.map2 d n) c s h = ground arith

fits_weights2-≡ :
    (a : DataType) (c : Content) (s : ℕ)
    → fits_weights a (DataType.map2 c s) ≡ true
    → a ≡ DataType.plain c
unfolding is_map_of
fits_weights2-≡ (DataType.plain Content.scalar) c s h = ground (arith, scalar-≡ c)
fits_weights2-≡ (DataType.plain Content.pos1) c s h = ground (arith, pos1-≡ c)
fits_weights2-≡ (DataType.plain Content.pos2) c s h = ground (arith, pos2-≡ c)
fits_weights2-≡ (DataType.plain (Content.array n)) Content.scalar s h = ground arith
fits_weights2-≡ (DataType.plain (Content.array n)) Content.pos1 s h = ground arith
fits_weights2-≡ (DataType.plain (Content.array n)) Content.pos2 s h = ground arith
fits_weights2-≡ (DataType.plain (Content.array n)) (Content.array m) s h = ground arith
fits_weights2-≡ (DataType.map1 d n) c s h = ground arith
fits_weights2-≡ (DataType.map2 d n) c s h = ground arith

Indexing-line :
    (a : DataType) (c : Content) (s : ℕ) (p : DataType)
    → a ≡ DataType.plain c
    → p ≡ pos1
    → Indexing a (DataType.map1 c s) p
Indexing-line a c s p h k =
    subst (λ q. Indexing a (DataType.map1 c s) q) (sym k)
      (subst (λ b. Indexing b (DataType.map1 c s) pos1) (sym h) (Indexing.line c s))

Indexing-square :
    (a : DataType) (c : Content) (s : ℕ) (p : DataType)
    → a ≡ DataType.plain c
    → p ≡ pos2
    → Indexing a (DataType.map2 c s) p
Indexing-square a c s p h k =
    subst (λ q. Indexing a (DataType.map2 c s) q) (sym k)
      (subst (λ b. Indexing b (DataType.map2 c s) pos2) (sym h) (Indexing.square c s))

pub fits-Indexing :
    (a w p : DataType) → fits_weights a w ≡ true → fits_position w p ≡ true → Indexing a w p
fits-Indexing a (DataType.plain c) p h k = ground arith
fits-Indexing a (DataType.map1 c s) p h k =
    Indexing-line a c s p (fits_weights1-≡ a c s h) (is_pos1d-≡ p (ground arith))
fits-Indexing a (DataType.map2 c s) p h k =
    Indexing-square a c s p (fits_weights2-≡ a c s h) (is_pos2d-≡ p (ground arith))

pub check_types_value_at-Indexing :
    (r m p : DataType)
    → IsType r
    → IsType m
    → check_types_value_at r (m ∷ p ∷ []) ≡ true
    → Indexing r m p
unfolding is_map_of
check_types_value_at-Indexing r (DataType.plain c) p v w h = ground arith
check_types_value_at-Indexing r (DataType.map1 c s) p v w h =
    Indexing-line r c s p (content_eq-≡ c r w.0 v (ground arith)) (is_pos1d-≡ p (ground arith))
check_types_value_at-Indexing r (DataType.map2 c s) p v w h =
    Indexing-square r c s p (content_eq-≡ c r w.0 v (ground arith)) (is_pos2d-≡ p (ground arith))

pub check_types_argmax-Pointing :
    (p m : DataType) → check_types_argmax p (m ∷ []) ≡ true → Pointing p m
unfolding is_map_of
check_types_argmax-Pointing p (DataType.plain c) h = ground arith
check_types_argmax-Pointing p (DataType.map1 c s) h =
    subst (λ q. Pointing q (DataType.map1 c s)) (sym (is_pos1d-≡ p (ground arith)))
      (subst (λ d. Pointing pos1 (DataType.map1 d s)) (sym (scalar-≡ c (ground arith)))
        (Pointing.line s))
check_types_argmax-Pointing p (DataType.map2 c s) h =
    subst (λ q. Pointing q (DataType.map2 c s)) (sym (is_pos2d-≡ p (ground arith)))
      (subst (λ d. Pointing pos2 (DataType.map2 d s)) (sym (scalar-≡ c (ground arith)))
        (Pointing.square s))

pub all_scalars-All : (args : List DataType) → all_scalars args ≡ true → All (λ a. a ≡ scalar) args
all_scalars-All [] h = tt
all_scalars-All (a ∷ args) h = (is_scalar-≡ a (ground arith), all_scalars-All args (ground arith))

pub all_alike-All :
    (t : DataType) (args : List DataType)
    → IsType t
    → All IsType args
    → all_alike t args ≡ true
    → All (λ a. a ≡ t) args
all_alike-All t [] v w h = tt
all_alike-All t (a ∷ args) v w h =
    (type_eq-≡ a t w.0 v (ground arith), all_alike-All t args v w.1 (ground arith))
