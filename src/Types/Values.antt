-- ===== src/Types/Values.antt =====
-- cxsom/src/cxsomData.hpp, the namespace `data`: the values of the types, as their doubles.
-- The type of the doubles is a parameter; a buffer holds whole doubles, of 8 bytes.
use cxsom.Prelude.{
  ℕ, zero, suc, ◌/◌, Bool, true, ◌&&◌, ◌||◌, not, ◌==◌, if◌then◌else◌, Option, none, some, ◌>>=◌,
  List, [], ◌∷◌, map,
}
use cxsom.Types.{
  DataType, is_scalar, is_pos1d, is_pos2d, is_array, is_map, nb_of_doubles, byte_length,
}

-- A subclass of `data::Base`: its type, and what `first_byte` points to.
pub record Value (D : Type 0) : Type 0 where
  pub type : DataType
  pub content : List D

module _ {D : Type 0} where
  unfoldable pub replicate : ℕ → D → List D
  replicate zero x = []
  replicate (suc n) x = x ∷ replicate n x

  -- The constructors, which set every double to 0; the argument is this value.
  unfoldable pub construct : D → DataType → Value D
  construct blank t = record { type = t; content = replicate (nb_of_doubles t) blank }

  -- `data::make`: the class is chosen by the predicates; `none` is `error::unknown_type`, for a null
  -- pointer or a type of no class.
  unfoldable pub make : D → Option DataType → Option (Value D)
  make blank none = none
  make blank (some t) =
      if is_scalar t || (is_pos1d t || (is_pos2d t || (not (is_array t == 0) || is_map t)))
      then some (construct blank t)
      else none

  -- As many doubles as a count from the front; `none` is an access behind the end.
  unfoldable pub take : ℕ → List D → Option (List D)
  take zero xs = some []
  take (suc n) [] = none
  take (suc n) (x ∷ xs) = take n xs >>= λ ys. some (x ∷ ys)

  -- The front of a memory is replaced by a count of doubles of a buffer.
  unfoldable pub overwrite : ℕ → List D → List D → Option (List D)
  overwrite zero buf xs = some xs
  overwrite (suc n) (b ∷ buf) (x ∷ xs) = overwrite n buf xs >>= λ ys. some (b ∷ ys)
  overwrite (suc n) _ _ = none

  -- `write`: the bytes of the value, as many as its type has.
  unfoldable pub write : Value D → Option (List D)
  write v = take (byte_length v.type / 8) v.content

  -- `read`: the bytes of the value are replaced by those of the buffer.
  unfoldable pub read : List D → Value D → Option (Value D)
  read buf v = do
    xs ← overwrite (byte_length v.type / 8) buf v.content
    some (record v { content = xs })

  -- `is_equal`, by an equality of doubles as bytes.
  unfoldable pub equal_front : (D → D → Bool) → ℕ → List D → List D → Option Bool
  equal_front same zero buf xs = some true
  equal_front same (suc n) (b ∷ buf) (x ∷ xs) = do
    rest ← equal_front same n buf xs
    some (same x b && rest)
  equal_front same (suc n) _ _ = none

  unfoldable pub is_equal : (D → D → Bool) → List D → Value D → Option Bool
  is_equal same buf v = equal_front same (byte_length v.type / 8) buf v.content

  -- `operator=(double)`
  unfoldable pub assign : D → Value D → Value D
  assign x v = record v { content = map (λ y. x) v.content }
