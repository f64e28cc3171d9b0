-- ===== src/Types/RoundTrip.antt =====
-- cxsom/src/cxsomData.hpp: `type::make` against `name`.
use cxsom.Prelude.{ℕ, ◌≡◌, refl, false, ltb, List, [], ◌∷◌, ◌++◌, arith, subst, some}
use mathlib.Core.List.{append-nil}
use cxsom.Types.{
  codes, Content, DataType, content_name, build_name, name, IsSize, IsContent, IsType,
}
use cxsom.Types.Decimal.{digits, to_string}
use cxsom.Types.Grammar.{
  Stream, starts_digit, skip_spaces, scan, convert, extract, check_char, check_token, parse_scalar,
  parse_dim, pos_of, parse_pos, parse_size, parse_array, peek, content_by, parse_content,
  map_content, map_of, parse_map, type_by, parse_type, make,
}
use cxsom.Types.Reading.{digits-append, extract-digits}

-- A stream that has read up to a rest.
abbrev at_rest : List ℕ → Stream
at_rest rest = record { rest = rest; failed = false }

to_string-append : (n : ℕ) (rest : List ℕ) → to_string n ++ rest ≡ digits 10 n rest
to_string-append n rest = digits-append 10 n [] rest

parse_size-digits :
    (n : ℕ) (rest : List ℕ)
    → IsSize n
    → starts_digit rest ≡ false
    → parse_size (at_rest (b'=' ∷ digits 10 n rest)) ≡ some (n, at_rest rest)
unfolding parse_size check_char
parse_size-digits n rest v h = ground (arith, extract-digits n rest)

parse_array-digits :
    (n : ℕ) (rest : List ℕ)
    → IsSize n
    → starts_digit rest ≡ false
    → parse_array (at_rest (codes "Array=" ++ digits 10 n rest))
      ≡ some (DataType.plain (Content.array n), at_rest rest)
unfolding parse_array check_token check_char
parse_array-digits n rest v h = ground (arith, parse_size-digits n rest v h)

-- A content is read off the front of what follows it, if this is no digit.
parse_content-name :
    (c : Content) (rest : List ℕ)
    → IsContent c
    → starts_digit rest ≡ false
    → parse_content (at_rest (content_name c ++ rest)) ≡ some (DataType.plain c, at_rest rest)
unfolding parse_content content_name peek skip_spaces content_by parse_scalar parse_pos parse_dim
    pos_of check_token check_char extract convert scan
parse_content-name Content.scalar rest v h = refl
parse_content-name Content.pos1 rest v h = refl
parse_content-name Content.pos2 rest v h = refl
parse_content-name (Content.array n) rest v h =
    rw (to_string-append n rest) (parse_array-digits n rest v h)

map_content-plain : (c : Content) → IsContent c → map_content (DataType.plain c) ≡ some c
unfolding map_content
map_content-plain Content.scalar v = refl
map_content-plain Content.pos1 v = refl
map_content-plain Content.pos2 v = refl
map_content-plain (Content.array n) v = ground arith

-- A map, after its dimension.
abbrev map_tail : List ℕ → ℕ → List ℕ
map_tail content side = b'<' ∷ (content ++ (codes ">=" ++ digits 10 side []))

parse_map-tail :
    (dim : ℕ) (c : Content) (side : ℕ) (t : DataType)
    → IsContent c
    → IsSize side
    → map_of dim side c ≡ some t
    → ltb 2 dim ≡ false
    → parse_dim (at_rest (to_string dim ++ (b'D' ∷ map_tail (content_name c) side)))
      ≡ some (dim, at_rest (map_tail (content_name c) side))
    → parse_map (at_rest (build_name dim (content_name c) side)) ≡ some (t, at_rest [])
unfolding parse_map build_name check_token check_char
parse_map-tail dim c side t v w e l d = ground (
  arith,
  parse_content-name c (codes ">=" ++ digits 10 side []) v refl,
  parse_size-digits side [] w refl,
  map_content-plain c v,
)

parse_dim-one : (rest : List ℕ) → parse_dim (at_rest (b'1' ∷ b'D' ∷ rest)) ≡ some (1, at_rest rest)
unfolding parse_dim check_char extract convert scan skip_spaces
parse_dim-one rest = refl

parse_dim-two : (rest : List ℕ) → parse_dim (at_rest (b'2' ∷ b'D' ∷ rest)) ≡ some (2, at_rest rest)
unfolding parse_dim check_char extract convert scan skip_spaces
parse_dim-two rest = refl

make-content : (c : Content) → IsContent c → make (content_name c ++ []) ≡ some (DataType.plain c)
unfolding make parse_type peek skip_spaces type_by content_name
make-content Content.scalar v = ground (arith, parse_content-name Content.scalar [] v refl)
make-content Content.pos1 v = ground (arith, parse_content-name Content.pos1 [] v refl)
make-content Content.pos2 v = ground (arith, parse_content-name Content.pos2 [] v refl)
make-content (Content.array n) v = ground (arith, parse_content-name (Content.array n) [] v refl)

-- `make` gives back every type from its name, if the sizes in the type are positive and less
-- than 2^32.
pub make-name : (t : DataType) → IsType t → make (name t) ≡ some t
unfolding make parse_type peek skip_spaces type_by name build_name digits map_of
make-name (DataType.plain c) v =
    subst (λ n. make n ≡ some (DataType.plain c)) (append-nil (content_name c)) (make-content c v)
make-name (DataType.map1 c side) v = ground (
  arith,
  parse_map-tail 1 c side (DataType.map1 c side) v.0 v.1 refl refl
      (parse_dim-one (map_tail (content_name c) side)),
)
make-name (DataType.map2 c side) v = ground (
  arith,
  parse_map-tail 2 c side (DataType.map2 c side) v.0 v.1 refl refl
      (parse_dim-two (map_tail (content_name c) side)),
)
