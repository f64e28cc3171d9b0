-- ===== src/Types/Storage.antt =====
-- cxsom/src/cxsomData.hpp: the memory of a value against the bytes that are written and read.
use native.Mathlib.Nat.{mul_assoc}
use cxsom.Prelude.{
  ℕ, zero, suc, ◌*◌, ◌/◌, ◌%◌, ◌<◌, ◌≡◌, refl, List, [], ◌∷◌, length, arith, some, none, ◌>>=◌,
  if◌then◌else◌, ltb, ◌∙◌, ap, word,
}
use cxsom.Types.{
  Content, DataType, unsigned, IsContent, IsType, size, content_size, nb_of_doubles, byte_length,
}
use cxsom.Types.Values.{Value, replicate, take, overwrite, write, construct, make}
use cxsom.Types.Values

-- The content of the elements of a type.
abbrev pub element : DataType → Content
element (DataType.plain c) = c
element (DataType.map1 c side) = c
element (DataType.map2 c side) = c

-- How many elements a value of the type has, and how many doubles, without any wrap-around: a square
-- map has the square of its side.
abbrev pub area : DataType → ℕ
area (DataType.plain c) = 1
area (DataType.map1 c side) = side
area (DataType.map2 c side) = side * side

abbrev pub doubles : DataType → ℕ
doubles t = area t * content_size (element t)

-- The same with the `size` of the source.
abbrev cells : DataType → ℕ
cells t = size t * content_size (element t)

cells-doubles : (t : DataType) → area t < unsigned → cells t ≡ doubles t
unfolding size
cells-doubles (DataType.plain c) h = refl
cells-doubles (DataType.map1 c side) h = refl
cells-doubles (DataType.map2 c side) h =
    let q : (side * side) % unsigned ≡ side * side = omega arith in ap (λ k. k * content_size c) q

pub content_size-bound :
    (c : Content) → IsContent c → (0 < content_size c) × (content_size c < unsigned)
content_size-bound Content.scalar v = omega arith
content_size-bound Content.pos1 v = omega arith
content_size-bound Content.pos2 v = omega arith
content_size-bound (Content.array n) v = v

size-bound : (t : DataType) → IsType t → size t < unsigned
unfolding size
size-bound (DataType.plain c) v = omega arith
size-bound (DataType.map1 c side) v = v.1.1
size-bound (DataType.map2 c side) v = omega arith

bytes_eq : (a b : ℕ) → a < unsigned → (((8 * a) % word) * b) % word ≡ (8 * (a * b)) % word
bytes_eq a b h =
    let small : (8 * a) % word ≡ 8 * a = omega arith in
    ap (λ k. (k * b) % word) small ∙ ap (λ k. k % word) (mul_assoc 8 a b)

byte_length-cells : (t : DataType) → IsType t → byte_length t ≡ (8 * cells t) % word
unfolding byte_length size
byte_length-cells (DataType.plain c) v = omega arith
byte_length-cells (DataType.map1 c side) v =
    bytes_eq (size (DataType.map1 c side)) (content_size c) (size-bound (DataType.map1 c side) v)
byte_length-cells (DataType.map2 c side) v =
    bytes_eq (size (DataType.map2 c side)) (content_size c) (size-bound (DataType.map2 c side) v)

nb_of_doubles-cells : (t : DataType) → IsType t → nb_of_doubles t ≡ cells t % unsigned
unfolding nb_of_doubles size
nb_of_doubles-cells (DataType.plain c) v = omega (arith, content_size-bound c v)
nb_of_doubles-cells (DataType.map1 c side) v = refl
nb_of_doubles-cells (DataType.map2 c side) v = refl

-- The lengths of the source, for a map whose number of elements does not wrap around.
pub byte_length-doubles :
    (t : DataType) → IsType t → area t < unsigned → byte_length t ≡ (8 * doubles t) % word
byte_length-doubles t v h = byte_length-cells t v ∙ ap (λ k. (8 * k) % word) (cells-doubles t h)

nb_of_doubles-doubles :
    (t : DataType) → IsType t → area t < unsigned → nb_of_doubles t ≡ doubles t % unsigned
nb_of_doubles-doubles t v h = nb_of_doubles-cells t v ∙ ap (λ k. k % unsigned) (cells-doubles t h)

module _ {D : Type 0} where
  take-replicate : (n : ℕ) (x : D) → take n (replicate n x) ≡ some (replicate n x)
  unfolding take replicate
  take-replicate zero x = refl
  take-replicate (suc n) x = ground (arith, take-replicate n x)

  take-replicate_lt : (m n : ℕ) (x : D) → n < m → take m (replicate n x) ≡ none
  unfolding take replicate
  take-replicate_lt zero n x h = absurd (omega arith)
  take-replicate_lt (suc m) zero x h = refl
  take-replicate_lt (suc m) (suc n) x h = ground (arith, take-replicate_lt m n x)

  write-construct :
      (blank : D) (t : DataType)
      → IsType t
      → area t < unsigned
      → doubles t < 2305843009213693952
      → write (construct blank t)
        ≡ (if ltb (doubles t) unsigned then some (replicate (doubles t) blank) else none)
  unfolding write construct
  write-construct blank t v a h = ground (
    arith,
    byte_length-doubles t v a,
    nb_of_doubles-doubles t v a,
    take-replicate (doubles t) blank,
    take-replicate_lt (doubles t) (doubles t % unsigned) blank,
  )

  make-construct :
      (blank : D) (t : DataType) → IsType t → make blank (some t) ≡ some (construct blank t)
  unfolding make
  make-construct blank (DataType.plain Content.scalar) v = refl
  make-construct blank (DataType.plain Content.pos1) v = refl
  make-construct blank (DataType.plain Content.pos2) v = refl
  make-construct blank (DataType.plain (Content.array n)) v = ground arith
  make-construct blank (DataType.map1 c side) v = refl
  make-construct blank (DataType.map2 c side) v = refl

  -- A value that was just made, of a type with positive sizes less than 2^32, whose number of elements
  -- (the square of the side for a square map) is less than 2^32: if it has less than 2^32 doubles,
  -- `write` gives them all, each the value of a new double; if it has more, but less than 2^61,
  -- `write` goes beyond its memory.
  pub write-make :
      (blank : D) (t : DataType)
      → IsType t
      → area t < unsigned
      → doubles t < 2305843009213693952
      → (make blank (some t) >>= write)
        ≡ (if ltb (doubles t) unsigned then some (replicate (doubles t) blank) else none)
  write-make blank t v a h = rw (make-construct blank t v) (write-construct blank t v a h)

  -- A value whose memory is as long as its type says.
  abbrev pub IsFull : Value D → Type 0
  IsFull v = length v.content ≡ byte_length v.type / 8

  take_all : (xs : List D) (n : ℕ) → length xs ≡ n → take n xs ≡ some xs
  unfolding take
  take_all [] zero h = refl
  take_all [] (suc n) h = absurd (omega arith)
  take_all (x ∷ xs) zero h = absurd (omega arith)
  take_all (x ∷ xs) (suc n) h = ground (arith, take_all xs n)

  overwrite_all :
      (xs ys : List D) (n : ℕ) → length xs ≡ n → length ys ≡ n → overwrite n xs ys ≡ some xs
  unfolding overwrite
  overwrite_all [] [] zero h k = refl
  overwrite_all (x ∷ xs) ys zero h k = absurd (omega arith)
  overwrite_all [] (y ∷ ys) zero h k = absurd (omega arith)
  overwrite_all [] ys (suc n) h k = absurd (omega arith)
  overwrite_all (x ∷ xs) [] (suc n) h k = absurd (omega arith)
  overwrite_all (x ∷ xs) (y ∷ ys) (suc n) h k = ground (arith, overwrite_all xs ys n)

  -- What a value writes is read back by any value of the same type, when the memory of both is as
  -- long as their type says.
  pub read-write_full :
      (v w : Value D)
      → IsFull v
      → IsFull w
      → v.type ≡ w.type
      → (write v >>= λ buf. Values.read buf w) ≡ some (record w { content = v.content })
  unfolding write Values.read
  read-write_full v w f g e = ground (
    arith,
    ap byte_length e,
    take_all v.content (byte_length v.type / 8),
    overwrite_all v.content w.content (byte_length w.type / 8),
  )
