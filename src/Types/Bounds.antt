-- ===== src/Types/Bounds.antt =====
-- cxsom/src/cxsomData.hpp: the types that `type::make` can give.
use cxsom.Prelude.{
  ℕ, ◌<◌, false, not, ◌||◌, if◌then◌else◌, ltb, ◌==◌, List, arith, Option, some, none, ◌>>=◌,
  if_split,
}
use cxsom.Types.{Content, DataType, unsigned, codes, IsSize, IsContent, IsType}
use cxsom.Types.Grammar.{
  Stream, convert, extract, check_char, check_token, parse_scalar, parse_dim, pos_of, parse_pos,
  parse_size, parse_array, peek, content_by, parse_content, map_content, map_of, parse_map, type_by,
  parse_type, make,
}

extract-bound : (s : Stream) → (extract s).0 < unsigned
unfolding extract convert
extract-bound s = ground arith

-- What a parser gives, when it gives something.
abbrev pub Ensures {ℓ κ} : {A : Type ℓ} → (A → Type κ) → Option A → Type κ
Ensures P none = Unit
Ensures P (some a) = P a

Ensures-bind {ℓ κ μ ν} :
    {A : Type ℓ} {B : Type κ} (P : A → Type μ) (Q : B → Type ν) (m : Option A) (f : A → Option B)
    → Ensures P m
    → ((a : A) → P a → Ensures Q (f a))
    → Ensures Q (m >>= f)
Ensures-bind P Q none f h k = tt
Ensures-bind P Q (some a) f h k = k a h

Ensures-then {ℓ κ ν} :
    {A : Type ℓ} {B : Type κ} (Q : B → Type ν) (m : Option A) (f : A → Option B)
    → ((a : A) → Ensures Q (f a))
    → Ensures Q (m >>= f)
Ensures-then Q none f k = tt
Ensures-then Q (some a) f k = k a

abbrev Sized : ℕ × Stream → Type 0
Sized r = IsSize r.0

abbrev Typed : DataType × Stream → Type 0
Typed r = IsType r.0

parse_size-Sized : (s : Stream) → Ensures Sized (parse_size s)
unfolding parse_size
parse_size-Sized s =
    Ensures-then Sized (check_char b'=' s)
      (λ s'. if (extract s').0 == 0 then none else some (extract s'))
      λ r.
        if_split (Ensures Sized) ((extract r).0 == 0) (λ e. tt)
          (λ e. (ground arith, extract-bound r))

parse_array-Typed : (s : Stream) → Ensures Typed (parse_array s)
unfolding parse_array
parse_array-Typed s =
    Ensures-then Typed (check_token (codes "Array") s)
      (λ s'. parse_size s' >>= λ r. some (DataType.plain (Content.array r.0), r.1))
      λ s'.
        Ensures-bind Sized Typed (parse_size s')
          (λ r. some (DataType.plain (Content.array r.0), r.1)) (parse_size-Sized s') (λ r h. h)

parse_scalar-Typed : (s : Stream) → Ensures Typed (parse_scalar s)
unfolding parse_scalar
parse_scalar-Typed s =
    Ensures-then Typed (check_token (codes "Scalar") s)
      (λ s'. some (DataType.plain Content.scalar, s')) (λ s'. tt)

pos_of-Typed : (r : ℕ × Stream) → Ensures Typed (pos_of r)
unfolding pos_of
pos_of-Typed r =
    if_split (Ensures Typed) (r.0 == 1) (λ e. tt)
      (λ e. if_split (Ensures Typed) (r.0 == 2) (λ f. tt) (λ f. tt))

parse_pos-Typed : (s : Stream) → Ensures Typed (parse_pos s)
unfolding parse_pos
parse_pos-Typed s =
    Ensures-then Typed (check_token (codes "Pos") s) (λ s'. parse_dim s' >>= pos_of)
      λ s'. Ensures-then Typed (parse_dim s') pos_of pos_of-Typed

content_by-Typed : (r : ℕ × Stream) → Ensures Typed (content_by r)
unfolding content_by
content_by-Typed r =
    if_split (Ensures Typed) (r.0 == b'S') (λ e. parse_scalar-Typed r.1)
      (λ e.
        if_split (Ensures Typed) (r.0 == b'P') (λ f. parse_pos-Typed r.1)
          (λ f. if_split (Ensures Typed) (r.0 == b'A') (λ g. parse_array-Typed r.1) (λ g. tt)))

parse_content-Typed : (s : Stream) → Ensures Typed (parse_content s)
unfolding parse_content
parse_content-Typed s = Ensures-then Typed (peek s) content_by content_by-Typed

map_content-IsContent : (t : DataType) → IsType t → Ensures IsContent (map_content t)
unfolding map_content
map_content-IsContent (DataType.plain Content.scalar) v = tt
map_content-IsContent (DataType.plain Content.pos1) v = tt
map_content-IsContent (DataType.plain Content.pos2) v = tt
map_content-IsContent (DataType.plain (Content.array n)) v =
    if_split (Ensures IsContent) (not (n == 0)) (λ e. v) (λ e. tt)
map_content-IsContent (DataType.map1 c side) v = tt
map_content-IsContent (DataType.map2 c side) v = tt

map_of-IsType :
    (dim side : ℕ) (c : Content) → IsSize side → IsContent c → Ensures IsType (map_of dim side c)
unfolding map_of
map_of-IsType dim side c h k =
    if_split (Ensures IsType) (dim == 1) (λ e. (k, h))
      (λ e. if_split (Ensures IsType) (dim == 2) (λ f. (k, h)) (λ f. tt))

parse_map-Typed : (s : Stream) → Ensures Typed (parse_map s)
unfolding parse_map
parse_map-Typed s = Ensures-then Typed (check_token (codes "Map") s) _ λ s1.
    Ensures-then Typed (parse_dim s1) _ λ dim.
      Ensures-then Typed (if ltb 2 dim.0 then none else check_char b'<' dim.1) _ λ s2.
        Ensures-bind Typed Typed (parse_content s2) _ (parse_content-Typed s2) λ content v.
          Ensures-then Typed (check_char b'>' content.1) _ λ s3.
            Ensures-bind Sized Typed (parse_size s3) _ (parse_size-Sized s3) λ side h.
              Ensures-bind IsContent Typed (map_content content.0) _
                (map_content-IsContent content.0 v)
                λ c k.
                  Ensures-bind IsType Typed (map_of dim.0 side.0 c) _
                    (map_of-IsType dim.0 side.0 c h k) λ t w. w

type_by-Typed : (r : ℕ × Stream) → Ensures Typed (type_by r)
unfolding type_by
type_by-Typed r =
    if_split (Ensures Typed) (r.0 == b'S' || (r.0 == b'P' || r.0 == b'A'))
      (λ e. parse_content-Typed r.1)
      (λ e. if_split (Ensures Typed) (r.0 == b'M') (λ f. parse_map-Typed r.1) (λ f. tt))

-- Whatever the text, a type that `make` gives has positive sizes that are less than 2^32.
pub make-IsType : (s : List ℕ) → Ensures IsType (make s)
unfolding make parse_type
make-IsType s =
    Ensures-bind Typed IsType (peek (record { rest = s; failed = false }) >>= type_by)
      (λ r. some r.0)
      (Ensures-then Typed (peek (record { rest = s; failed = false })) type_by type_by-Typed)
      (λ r h. h)
