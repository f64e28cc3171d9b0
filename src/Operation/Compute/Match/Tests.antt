-- ===== src/Operation/Compute/Match/Tests.antt =====
-- A match of a position of the plane with a line of two weights.
use cxsom.Prelude.{ℕ, ◌≡◌, refl, Bool, Option, none, some, ◌>>=◌, List, [], ◌∷◌, length, arith, ◌/◌}
use cxsom.Types.{Content, DataType, byte_length, size}
use cxsom.Types.Values.{Value}
use cxsom.Operation.Typed.{Matching, pos2}
use cxsom.Operation.Compute.Numbers.{numbers}
use cxsom.Operation.Compute.Match.{Members, triangle, read_data, on_write_result}
use cxsom.Operation.Compute.Match.Rows.{Matched, triangle-IsDefined}
use cxsom.Operation.Compute.Match.Typed.{on_write_result-Matched}

abbrev position : Value (Option ℕ)
position = record { type = pos2; content = some 1 ∷ some 2 ∷ [] }

abbrev weights : Value (Option ℕ)
weights = record {
  type = DataType.map1 Content.pos2 2;
  content = some 1 ∷ some 2 ∷ some 3 ∷ some 4 ∷ [];
}

abbrev result : Value (Option ℕ)
result = record { type = DataType.map1 Content.scalar 2; content = some 9 ∷ some 9 ∷ [] }

abbrev members : Members (Option ℕ)
members = record { w = []; i1 = some 0; i2 = []; in_n = []; input_type = none }

weights_bytes : 4 ≡ byte_length (DataType.map1 Content.pos2 2) / 8
unfolding byte_length size
weights_bytes = refl

on_write_result-Matched_example :
    (changed : Bool) × (out : List (Option ℕ)) × (s : Members (Option ℕ)) × ((read_data numbers 0
          position members
        >>= λ t.
            read_data numbers 1 weights t
            >>= on_write_result numbers (triangle numbers (some 2)) (some 0) result)
      ≡ some (changed, record result { content = out }, s))
    × (length out ≡ 2)
    × Matched (λ row. (triangle numbers (some 2)).many row position.content) 2 weights.content out
on_write_result-Matched_example =
    on_write_result-Matched numbers (triangle numbers (some 2))
      (triangle-IsDefined numbers (some 2)) (DataType.map1 Content.scalar 2) pos2
      (DataType.map1 Content.pos2 2) (some 0) position weights result members
      (Matching.line Content.pos2 2) (tt, ground arith) (ground arith) refl refl refl refl
      weights_bytes refl
