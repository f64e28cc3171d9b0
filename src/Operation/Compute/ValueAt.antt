-- ===== src/Operation/Compute/ValueAt.antt =====
-- cxsom/src/cxsomOperation.hpp: `ValueAt`, the element of a map at a position.
pub mod Bounds
use cxsom.Prelude.{
  ℕ, zero, suc, ◌+◌, ◌*◌, ◌/◌, Bool, true, false, ◌||◌, Option, none, some, ◌>>=◌, List, [], ◌∷◌,
  ◌++◌, if◌then◌else◌, sub64, add64, word, ◌%◌,
}
use cxsom.Types.{DataType, byte_length, is_map1d}
use cxsom.Types.Values.{Value, read}
use cxsom.Operation.Compute.{Doubles, Operation, pos1_of, pos2_of}

-- What the code does beyond the interface: the test against 1; the product of a double and a
-- `std::size_t`, cast to `std::size_t`; and the bytes of a double, each as a number, the first one apart.
pub record Casts (D : Type 0) : Type 0 where
  pub at_least_one : D → Bool
  pub scaled : D → ℕ → ℕ
  pub bytes_of : D → D × List D

pub record Members (D : Type 0) : Type 0 where
  pub collection_in : Bool
  pub value_in : Bool
  pub collection_buf : Option (List D)
  pub x : D
  pub y : D

-- `static_cast<const type::Map*>(...)->side`, which the constructor reads; 0 stands for the cast of a
-- type that is no map.
abbrev pub side_of : DataType → ℕ
side_of (DataType.plain c) = 0
side_of (DataType.map1 c side) = side
side_of (DataType.map2 c side) = side

-- The pointer to a double, moved forward; none is a pointer behind the end.
abbrev pub advance : {D : Type 0} → ℕ → List D → Option (List D)
advance zero xs = some xs
advance (suc n) [] = none
advance (suc n) (x ∷ xs) = advance n xs

module _ {D : Type 0} (doubles : Doubles D) (casts : Casts D) where
  -- A `const char*` to doubles.
  abbrev pub bytes : List D → List D
  bytes [] = []
  bytes (x ∷ xs) = let (b, bs) = casts.bytes_of x in b ∷ (bs ++ bytes xs)

  -- The loop over the doubles of the result, with a byte for each; none is a byte behind the end.
  abbrev pub greatest_diff : D → List D → List D → Option D
  greatest_diff max bs [] = some max
  greatest_diff max [] (r ∷ rs) = none
  greatest_diff max (b ∷ bs) (r ∷ rs) =
      let diff = doubles.fabs (doubles.sub b r) in
      greatest_diff (if doubles.less max diff then diff else max) bs rs

module _ {D : Type 0} (doubles : Doubles D) (casts : Casts D)
    (collection_type res_type : DataType) where
  abbrev pub side : ℕ
  side = side_of collection_type

  abbrev pub coef : ℕ
  coef = sub64 side 1

  abbrev pub content_byte_length : ℕ
  content_byte_length = byte_length res_type

  -- The position, for the dimension of the collection.
  unfoldable pub read_index : Value D → Members D → Option (Members D)
  read_index v s =
      if is_map1d collection_type
      then (pos1_of v >>= λ x. some (record s { x = x }))
      else (pos2_of v >>= λ p. some (record s { x = p.0; y = p.1 }))

  -- An argument of another rank is not looked at.
  unfoldable pub on_read_arg : Bool → ℕ → Value D → Members D → Option (Members D)
  on_read_arg is_in zero v s =
      some (record s { collection_in = is_in; collection_buf = some v.content })
  on_read_arg is_in (suc zero) v s = read_index v (record s { value_in = is_in })
  on_read_arg is_in (suc (suc n)) v s = some s

  -- `idx` and `idy`
  unfoldable pub coordinate : D → ℕ
  coordinate x =
      if casts.at_least_one x
      then coef
      else if doubles.less doubles.zero x
      then casts.scaled x coef
      else 0

  -- The index of the element, in elements.
  unfoldable pub element_at : D → D → ℕ
  element_at x y =
      if is_map1d collection_type
      then coordinate x
      else add64 ((coordinate y * side) % word) (coordinate x)

  unfoldable pub on_write_result : D → Value D → Members D → Option (Bool × Value D × Members D)
  on_write_result epsilon v s = do
    buf ← s.collection_buf
    value ← advance (((element_at s.x s.y * content_byte_length) % word) / 8) buf
    changed ←
        if s.collection_in || s.value_in
        then (greatest_diff doubles casts doubles.zero (bytes doubles casts value) v.content
            >>= λ max. some (doubles.less epsilon max))
        else some true
    v' ← read value v
    some (changed, v', s)

  abbrev pub operation : D → Operation (Members D) (Value D)
  operation epsilon = record {
    on_computation_start = λ s. s;
    on_read_out_arg = on_read_arg false;
    on_read_out_arg_aborted = λ s. s;
    on_read_in_arg = on_read_arg true;
    on_write_result = on_write_result epsilon;
  }
