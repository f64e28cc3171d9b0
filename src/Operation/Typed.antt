-- ===== src/Operation/Typed.antt =====
-- cxsom/src/cxsomOperation.hpp: the typings that the type checker accepts, as an inductive relation.
-- The types are those that the grammar can say, so that a type is known from its name.
use cxsom.Prelude.{ℕ, ◌≡◌, String, List, [], ◌∷◌, All}
use cxsom.Symbol.{name_Eq}
use cxsom.Types.{Content, DataType}

abbrev pub scalar : DataType
scalar = DataType.plain Content.scalar

abbrev pub pos1 : DataType
pos1 = DataType.plain Content.pos1

abbrev pub pos2 : DataType
pos2 = DataType.plain Content.pos2

-- A map of scalars, and a position in it.
pub data Pointing : DataType → DataType → Type 0 where
  line : (s : ℕ) → Pointing pos1 (DataType.map1 Content.scalar s)
  square : (s : ℕ) → Pointing pos2 (DataType.map2 Content.scalar s)

-- A result, an input, and a map of weights for such inputs, of the side of the result.
pub data Matching : DataType → DataType → DataType → Type 0 where
  line :
      (c : Content) (s : ℕ)
      → Matching (DataType.map1 Content.scalar s) (DataType.plain c) (DataType.map1 c s)
  square :
      (c : Content) (s : ℕ)
      → Matching (DataType.map2 Content.scalar s) (DataType.plain c) (DataType.map2 c s)

-- An element, a map of such elements, and a position in it.
pub data Indexing : DataType → DataType → DataType → Type 0 where
  line : (c : Content) (s : ℕ) → Indexing (DataType.plain c) (DataType.map1 c s) pos1
  square : (c : Content) (s : ℕ) → Indexing (DataType.plain c) (DataType.map2 c s) pos2

-- `Typed op res args`: what the operation may compute from what. The second argument of a pair may
-- have any type, since the type checker does not look at it.
pub data Typed : String → DataType → List DataType → Type 0 where
  copy : (t : DataType) → Typed "copy" t (t ∷ [])
  min : (args : List DataType) → All (λ a. a ≡ scalar) args → Typed "min" scalar (scalar ∷ args)
  max : (args : List DataType) → All (λ a. a ≡ scalar) args → Typed "max" scalar (scalar ∷ args)
  average : (t : DataType) (args : List DataType) → All (λ a. a ≡ t) args → Typed "average" t args
  random : (t : DataType) → Typed "random" t []
  random_when : (t a : DataType) (args : List DataType) → Typed "random-when" t (a ∷ args)
  converge : (args : List DataType) → Typed "converge" scalar args
  clear : (t : DataType) → Typed "clear" t []
  merge1 :
      (s : ℕ)
      → Typed "merge"
          (DataType.map1 Content.scalar s)
          (DataType.map1 Content.scalar s ∷ DataType.map1 Content.scalar s ∷ [])
  merge2 :
      (s : ℕ)
      → Typed "merge"
          (DataType.map2 Content.scalar s)
          (DataType.map2 Content.scalar s ∷ DataType.map2 Content.scalar s ∷ [])
  match_triangle : (r a w : DataType) → Matching r a w → Typed "match-triangle" r (a ∷ w ∷ [])
  match_gaussian : (r a w : DataType) → Matching r a w → Typed "match-gaussian" r (a ∷ w ∷ [])
  learn_triangle : (a w p : DataType) → Indexing a w p → Typed "learn-triangle" w (a ∷ w ∷ p ∷ [])
  learn_gaussian : (a w p : DataType) → Indexing a w p → Typed "learn-gaussian" w (a ∷ w ∷ p ∷ [])
  argmax : (p m : DataType) → Pointing p m → Typed "argmax" p (m ∷ [])
  conv_argmax : (p m : DataType) → Pointing p m → Typed "conv-argmax" p (m ∷ [])
  toward_argmax : (p m : DataType) → Pointing p m → Typed "toward-argmax" p (m ∷ p ∷ [])
  toward_conv_argmax : (p m : DataType) → Pointing p m → Typed "toward-conv-argmax" p (m ∷ p ∷ [])
  pair : (b : DataType) → Typed "pair" pos2 (pos1 ∷ b ∷ [])
  first : Typed "first" pos1 (pos2 ∷ [])
  second : Typed "second" pos1 (pos2 ∷ [])
  value_at : (r m p : DataType) → Indexing r m p → Typed "value-at" r (m ∷ p ∷ [])
