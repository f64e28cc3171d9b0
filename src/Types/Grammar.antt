-- ===== src/Types/Grammar.antt =====
-- cxsom/src/cxsomData.hpp: the predictive parser of the names of types, over a `std::istream`.
use cxsom.Prelude.{
  ℕ, ◌+◌, ◌-◌, ◌*◌, ◌%◌, Bool, true, false, not, ◌&&◌, ◌||◌, if◌then◌else◌, ◌==◌, leb, ltb, Option,
  none, some, ◌>>=◌, List, [], ◌∷◌,
}
use cxsom.Types.{codes, Content, DataType, unsigned, is_scalar, is_pos1d, is_pos2d, is_array}

-- What is left to read, and `failbit`. A stream that has failed gives nothing more.
pub record Stream : Type 0 where
  pub rest : List ℕ
  pub failed : Bool

-- The characters that `>>` skips.
abbrev pub is_space : ℕ → Bool
is_space c = c == 32 || (leb 9 c && leb c 13)

unfoldable pub skip_spaces : List ℕ → List ℕ
skip_spaces [] = []
skip_spaces (c ∷ cs) = if is_space c then skip_spaces cs else c ∷ cs

abbrev pub is_digit : ℕ → Bool
is_digit c = leb b'0' c && leb c b'9'

-- The number that the digits at the front make, and what follows.
unfoldable pub scan : ℕ → List ℕ → ℕ × List ℕ
scan acc [] = (acc, [])
scan acc (c ∷ cs) = if is_digit c then scan (acc * 10 + (c - b'0')) cs else (acc, c ∷ cs)

abbrev pub starts_digit : List ℕ → Bool
starts_digit [] = false
starts_digit (c ∷ cs) = is_digit c

-- A sign is read before the digits, also for an unsigned number.
abbrev pub sign : List ℕ → Bool × List ℕ
sign [] = (false, [])
sign (c ∷ cs) = if c == b'-' then (true, cs) else if c == b'+' then (false, cs) else (false, c ∷ cs)

-- The value that is stored: 0 when there is no digit, and the greatest one beyond the range, which
-- are failures; a negative number wraps around.
unfoldable pub convert : Bool → List ℕ → ℕ × Stream
convert negative cs =
    let (value, rest) = scan 0 cs in
    if not (starts_digit cs)
    then (0, record { rest = cs; failed = true })
    else if leb unsigned value
    then (unsigned - 1, record { rest = rest; failed = true })
    else (
      if negative then (unsigned - value) % unsigned else value,
      record { rest = rest; failed = false },
    )

-- `unsigned int d = 0; is >> d;`
unfoldable pub extract : Stream → ℕ × Stream
extract s =
    let (negative, cs) = sign (skip_spaces s.rest) in
    if s.failed then (0, s) else convert negative cs

-- `parse_check` of a character and of a token; `none` is `error::type_parsing`.
abbrev pub next_is : ℕ → List ℕ → Option Stream
next_is c [] = none
next_is c (cc ∷ cs) = if cc == c then some (record { rest = cs; failed = false }) else none

unfoldable pub check_char : ℕ → Stream → Option Stream
check_char c s = if s.failed then none else next_is c s.rest

unfoldable pub check_token : List ℕ → Stream → Option Stream
check_token [] s = some s
check_token (c ∷ cs) s = check_char c s >>= λ s'. check_token cs s'

unfoldable pub parse_scalar : Stream → Option (DataType × Stream)
parse_scalar s = do s' ← check_token (codes "Scalar") s; some (DataType.plain Content.scalar, s')

unfoldable pub parse_dim : Stream → Option (ℕ × Stream)
parse_dim s =
    let (d, s') = extract s in
    if d == 0 then none else (check_char b'D' s' >>= λ s''. some (d, s''))

-- The `switch` on the dimension of a position.
unfoldable pub pos_of : ℕ × Stream → Option (DataType × Stream)
pos_of r =
    if r.0 == 1
    then some (DataType.plain Content.pos1, r.1)
    else if r.0 == 2
    then some (DataType.plain Content.pos2, r.1)
    else none

unfoldable pub parse_pos : Stream → Option (DataType × Stream)
parse_pos s = do s' ← check_token (codes "Pos") s; r ← parse_dim s'; pos_of r

unfoldable pub parse_size : Stream → Option (ℕ × Stream)
parse_size s = do s' ← check_char b'=' s; if (extract s').0 == 0 then none else some (extract s')

unfoldable pub parse_array : Stream → Option (DataType × Stream)
parse_array s = do
  s' ← check_token (codes "Array") s
  r ← parse_size s'
  some (DataType.plain (Content.array r.0), r.1)

-- `is >> c; is.putback(c);`: the first character that is not a space, which stays in the stream.
unfoldable pub peek : Stream → Option (ℕ × Stream)
peek s = if s.failed then none else elim (skip_spaces s.rest) [
  | [] ↦ none
  | c ∷ cs ↦ some (c, record { rest = c ∷ cs; failed = false })
]

-- The `switch` on the first character of a content.
unfoldable pub content_by : ℕ × Stream → Option (DataType × Stream)
content_by r =
    if r.0 == b'S'
    then parse_scalar r.1
    else if r.0 == b'P'
    then parse_pos r.1
    else if r.0 == b'A'
    then parse_array r.1
    else none

unfoldable pub parse_content : Stream → Option (DataType × Stream)
parse_content s = peek s >>= content_by

-- The content of a map, found by the predicates of its type.
unfoldable pub map_content : DataType → Option Content
map_content t =
    if is_scalar t
    then some Content.scalar
    else if is_pos1d t
    then some Content.pos1
    else if is_pos2d t
    then some Content.pos2
    else if not (is_array t == 0)
    then some (Content.array (is_array t))
    else none

-- The `switch` on the dimension of a map.
unfoldable pub map_of : ℕ → ℕ → Content → Option DataType
map_of dim side c =
    if dim == 1
    then some (DataType.map1 c side)
    else if dim == 2
    then some (DataType.map2 c side)
    else none

unfoldable pub parse_map : Stream → Option (DataType × Stream)
parse_map s = do
  s1 ← check_token (codes "Map") s
  dim ← parse_dim s1
  s2 ← if ltb 2 dim.0 then none else check_char b'<' dim.1
  content ← parse_content s2
  s3 ← check_char b'>' content.1
  side ← parse_size s3
  c ← map_content content.0
  t ← map_of dim.0 side.0 c
  some (t, side.1)

-- The `switch` of `parse_TYPE`.
unfoldable pub type_by : ℕ × Stream → Option (DataType × Stream)
type_by r =
    if r.0 == b'S' || (r.0 == b'P' || r.0 == b'A')
    then parse_content r.1
    else if r.0 == b'M'
    then parse_map r.1
    else none

unfoldable pub parse_type : Stream → Option (DataType × Stream)
parse_type s = peek s >>= type_by

-- `type::make`: what follows the type is not looked at.
unfoldable pub make : List ℕ → Option DataType
make type_name = do r ← parse_type (record { rest = type_name; failed = false }); some r.0
