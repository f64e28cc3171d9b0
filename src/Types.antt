-- ===== src/Types.antt =====
-- cxsom/src/cxsomData.hpp, the namespace `type`: the types of the values, and their names.
pub mod Decimal
pub mod Grammar
pub mod Reading
pub mod RoundTrip
pub mod Bounds
pub mod Values
pub mod Storage
pub mod Tests
use Prim.Native.Char.{code}
use Prim.Native.String.{String}
use cxsom.Prelude.{
  ℕ, ◌+◌, ◌*◌, ◌%◌, Bool, true, false, if◌then◌else◌, ◌==◌, List, [], ◌∷◌, ◌++◌, ◌&&◌, ◌<◌, word,
}
use cxsom.Types.Decimal.{to_string}

-- The characters of a literal.
abbrev pub codes : String → List ℕ
codes String.[] = []
codes (String.◌∷◌ c s) = code c ∷ codes s

-- `Scalar`, `d1::Pos`, `d2::Pos` and `Array`, which may be the contents of a map.
pub data Content : Type 0 where
  scalar pos1 pos2 : Content
  array : ℕ → Content

-- The types: a content, or `d1::Map` or `d2::Map` of a content, with its side.
pub data DataType : Type 0 where
  plain : Content → DataType
  map1 map2 : Content → ℕ → DataType

-- `name`, of a content and of a type; `Map::build_name`.
unfoldable pub content_name : Content → List ℕ
content_name Content.scalar = codes "Scalar"
content_name Content.pos1 = codes "Pos1D"
content_name Content.pos2 = codes "Pos2D"
content_name (Content.array size) = codes "Array=" ++ to_string size

unfoldable pub build_name : ℕ → List ℕ → ℕ → List ℕ
build_name dim content_type side =
    codes "Map"
    ++ (to_string dim ++ (codes "D<" ++ (content_type ++ (codes ">=" ++ to_string side))))

unfoldable pub name : DataType → List ℕ
name (DataType.plain c) = content_name c
name (DataType.map1 c side) = build_name 1 (content_name c) side
name (DataType.map2 c side) = build_name 2 (content_name c) side

-- The number of doubles in an element: `content_size`, which the constructors of the maps give.
abbrev pub content_size : Content → ℕ
content_size Content.scalar = 1
content_size Content.pos1 = 1
content_size Content.pos2 = 2
content_size (Content.array size) = size

-- `size`, the number of elements: `side * side` wraps around at 2^32.
abbrev pub unsigned : ℕ
unsigned = 4294967296

unfoldable pub size : DataType → ℕ
size (DataType.plain c) = 1
size (DataType.map1 c side) = side
size (DataType.map2 c side) = (side * side) % unsigned

-- `nb_of_doubles`, an `unsigned int`.
unfoldable pub nb_of_doubles : DataType → ℕ
nb_of_doubles (DataType.plain c) = content_size c
nb_of_doubles (DataType.map1 c side) = (size (DataType.map1 c side) * content_size c) % unsigned
nb_of_doubles (DataType.map2 c side) = (size (DataType.map2 c side) * content_size c) % unsigned

-- `byte_length`, a `std::size_t`, where `sizeof(double)` is 8.
unfoldable pub byte_length : DataType → ℕ
byte_length (DataType.plain c) = (8 * content_size c) % word
byte_length (DataType.map1 c side) =
    (((8 * size (DataType.map1 c side)) % word) * content_size c) % word
byte_length (DataType.map2 c side) =
    (((8 * size (DataType.map2 c side)) % word) * content_size c) % word

-- The predicates of `type::Base`, as its subclasses override them.
abbrev pub is_scalar : DataType → Bool
is_scalar (DataType.plain Content.scalar) = true
is_scalar _ = false

abbrev pub is_pos1d : DataType → Bool
is_pos1d (DataType.plain Content.pos1) = true
is_pos1d _ = false

abbrev pub is_pos2d : DataType → Bool
is_pos2d (DataType.plain Content.pos2) = true
is_pos2d _ = false

-- `is_Array`: the size, or 0.
abbrev pub is_array : DataType → ℕ
is_array (DataType.plain (Content.array n)) = n
is_array _ = 0

-- `is_Array(arg)`
abbrev pub is_array_of : ℕ → DataType → Bool
is_array_of arg (DataType.plain (Content.array n)) = arg == n
is_array_of arg _ = false

abbrev pub is_map : DataType → Bool
is_map (DataType.plain c) = false
is_map _ = true

abbrev pub is_map1d : DataType → Bool
is_map1d (DataType.map1 c side) = true
is_map1d _ = false

abbrev pub is_map2d : DataType → Bool
is_map2d (DataType.map2 c side) = true
is_map2d _ = false

-- The equality of two texts.
abbrev pub text_eq : List ℕ → List ℕ → Bool
text_eq [] [] = true
text_eq (c ∷ cs) (d ∷ ds) = c == d && text_eq cs ds
text_eq _ _ = false

-- `is_Map(arg)`, `is_Map1D(arg)` and `is_Map2D(arg)`: the name of the content is tested.
unfoldable pub is_map_of : List ℕ → DataType → Bool
is_map_of arg (DataType.plain c) = false
is_map_of arg (DataType.map1 c side) = text_eq arg (content_name c)
is_map_of arg (DataType.map2 c side) = text_eq arg (content_name c)

abbrev pub is_map1d_of : List ℕ → DataType → Bool
is_map1d_of arg t = is_map1d t && is_map_of arg t

abbrev pub is_map2d_of : List ℕ → DataType → Bool
is_map2d_of arg t = is_map2d t && is_map_of arg t

-- `is_MapOfArray`, `is_Map1DOfArray` and `is_Map2DOfArray`: the size of the arrays, or 0.
abbrev pub is_map1d_of_array : DataType → ℕ
is_map1d_of_array (DataType.map1 (Content.array n) side) = n
is_map1d_of_array _ = 0

abbrev pub is_map2d_of_array : DataType → ℕ
is_map2d_of_array (DataType.map2 (Content.array n) side) = n
is_map2d_of_array _ = 0

abbrev pub is_map_of_array : DataType → ℕ
is_map_of_array t = if is_map1d t then is_map1d_of_array t else is_map2d_of_array t

-- `operator==`
unfoldable pub type_eq : DataType → DataType → Bool
type_eq s t = text_eq (name s) (name t)

-- What the grammar can say: every size is a positive `unsigned int`.
abbrev pub IsSize : ℕ → Type 0
IsSize n = (0 < n) × (n < unsigned)

abbrev pub IsContent : Content → Type 0
IsContent (Content.array n) = IsSize n
IsContent _ = Unit

abbrev pub IsType : DataType → Type 0
IsType (DataType.plain c) = IsContent c
IsType (DataType.map1 c side) = IsContent c × IsSize side
IsType (DataType.map2 c side) = IsContent c × IsSize side
