-- ===== src/Types/Tests.antt =====
-- Types and values at concrete sizes, and the theorems on them.
use cxsom.Prelude.{ℕ, ◌≡◌, refl, some, none, ◌>>=◌, arith, ltb, if◌then◌else◌}
use cxsom.Types.{codes, Content, DataType, name, content_name, build_name, unsigned, size}
use cxsom.Types.Decimal.{digits}
use cxsom.Types.Grammar.{
  make, parse_type, peek, skip_spaces, type_by, parse_content, content_by, parse_array, parse_size,
  check_token, check_char, extract, convert, scan,
}
use cxsom.Types.RoundTrip.{make-name}
use cxsom.Types.Values.{Value, replicate, take, overwrite, write, construct}
use cxsom.Types.Values
use cxsom.Types.Storage.{doubles, write-make}

-- A map of 30 by 30 arrays of 12 doubles.
abbrev grid : DataType
grid = DataType.map2 (Content.array 12) 30

grid_name : name grid ≡ codes "Map2D<Array=12>=30"
unfolding name build_name content_name digits
grid_name = refl

-- A minus sign, a number that is too great, and what follows a type are accepted.
make_negative : make (codes "Array=-1") ≡ some (DataType.plain (Content.array 4294967295))
unfolding make parse_type peek skip_spaces type_by parse_content content_by parse_array parse_size
    check_token check_char extract convert scan
make_negative = refl

make_great : make (codes "Array=5000000000") ≡ some (DataType.plain (Content.array 4294967295))
unfolding make parse_type peek skip_spaces type_by parse_content content_by parse_array parse_size
    check_token check_char extract convert scan
make_great = refl

make_tail : make (codes "Array=4>") ≡ some (DataType.plain (Content.array 4))
unfolding make parse_type peek skip_spaces type_by parse_content content_by parse_array parse_size
    check_token check_char extract convert scan
make_tail = refl

make-name_example : make (name grid) ≡ some grid
make-name_example = make-name grid (omega arith)

abbrev three : DataType
three = DataType.map1 Content.pos1 3

write-make_example :
    (Values.make {D = ℕ} 0 (some three) >>= write)
    ≡ (if ltb (doubles three) unsigned then some (replicate (doubles three) 0) else none)
unfolding size
write-make_example = write-make 0 three (tt, omega arith) (omega arith) (omega arith)
