-- ===== src/Operation/Compute/ValueAt/Bounds.antt =====
-- cxsom/src/cxsomOperation.hpp: an access of `ValueAt` stays in the map.
use native.Mathlib.Nat.{mul_left_comm}
use cxsom.Prelude.{
  ap, ◌∙◌, ◌||◌, ℕ, zero, suc, ◌+◌, ◌*◌, ◌%◌, ◌<◌, ◌≤◌, ◌≡◌, refl, Bool, true, false, if◌then◌else◌,
  arith, sub64, add64, word, List, [], ◌∷◌, length, length-append, some, ◌>>=◌, ◌/◌, sub64-eq, ◌-◌,
}
use cxsom.Types.{Content, DataType, unsigned, IsType, content_size, byte_length}
use cxsom.Types.Storage.{content_size-bound}
use cxsom.Types.Storage
use cxsom.Types.Values.{Value, take, overwrite, read}
use cxsom.Operation.Typed.{Indexing}
use cxsom.Operation.Compute.{Doubles}
use cxsom.Operation.Compute.ValueAt.{
  Casts, Members, advance, bytes, greatest_diff, on_write_result, side_of, coordinate, element_at,
}

-- The product of a number between 0 and 1 with a size, cut to a whole number, is at most the size.
pub record IsCut {D : Type 0} (doubles : Doubles D) (casts : Casts D) : Type 0 where
  pub scaled-bound :
      (x : D) (n : ℕ)
      → casts.at_least_one x ≡ false
      → doubles.less doubles.zero x ≡ true
      → casts.scaled x n ≤ n

pub area-room : (a c : ℕ) → 0 < c → a * c < unsigned → a < unsigned
area-room a zero h k = absurd (omega arith)
area-room a (suc c) h k = omega arith

-- A place in a row, of the rows below a number.
row-bound : (j t s i : ℕ) → j < t → i < s → j * s + i < t * s
row-bound j zero s i h k = absurd (omega arith)
row-bound zero (suc t) s i h k = omega arith
row-bound (suc j) (suc t) s i h k = omega (arith, row-bound j t s i (omega arith) k)

-- The doubles of an element.
pub element-bound : (e n c : ℕ) → e < n → e * c + c ≤ n * c
element-bound e zero c h = absurd (omega arith)
element-bound zero (suc n) c h = omega arith
element-bound (suc e) (suc n) c h = omega (arith, element-bound e n c (omega arith))

module _ {D : Type 0} where
  pub advance-length :
      (k : ℕ) (xs : List D)
      → k ≤ length xs
      → (ys : List D) × (advance k xs ≡ some ys) × (length ys + k ≡ length xs)
  advance-length zero xs h = (xs, refl, omega arith)
  advance-length (suc k) [] h = absurd (omega arith)
  advance-length (suc k) (x ∷ xs) h =
      let (ys, e, l) = advance-length k xs (omega arith) in (ys, e, omega (arith, l))

  -- What is read is the front of the buffer.
  overwrite-take :
      (n : ℕ) (buf xs : List D)
      → n ≤ length buf
      → length xs ≡ n
      → (ys : List D) × (take n buf ≡ some ys) × (overwrite n buf xs ≡ some ys)
  unfolding take overwrite
  overwrite-take zero buf [] h k = ([], refl, refl)
  overwrite-take zero buf (x ∷ xs) h k = absurd (omega arith)
  overwrite-take (suc n) [] xs h k = absurd (omega arith)
  overwrite-take (suc n) (b ∷ buf) [] h k = absurd (omega arith)
  overwrite-take (suc n) (b ∷ buf) (x ∷ xs) h k =
      let (ys, e, o) = overwrite-take n buf xs (omega arith) (omega arith) in
      (b ∷ ys, rw e refl, rw o refl)

module _ {D : Type 0} (doubles : Doubles D) (casts : Casts D) (laws : IsCut doubles casts) where
  coordinate-bound :
      (c r : DataType) (x : D)
      → 0 < side_of c
      → side_of c < unsigned
      → coordinate doubles casts c r x < side_of c
  unfolding coordinate
  coordinate-bound c r x h k =
      let n = sub64 (side_of c) 1 in
      let q : sub64 (side_of c) 1 ≡ side_of c - 1 = sub64-eq (side_of c) 1 h (omega arith) in
      ground (arith, q, laws.scaled-bound x n)

  -- The element is one of the map, wherever the position is, for a map of one dimension, and for one
  -- of two dimensions whose number of elements is less than 2^32.
  element_at-bound1 :
      (c : Content) (s : ℕ) (r : DataType) (x y : D)
      → IsType (DataType.map1 c s)
      → element_at doubles casts (DataType.map1 c s) r x y < Storage.area (DataType.map1 c s)
  unfolding element_at
  element_at-bound1 c s r x y v = coordinate-bound (DataType.map1 c s) r x v.1.0 v.1.1

  element_at-bound2 :
      (c : Content) (s : ℕ) (r : DataType) (x y : D)
      → IsType (DataType.map2 c s)
      → s * s < unsigned
      → element_at doubles casts (DataType.map2 c s) r x y < Storage.area (DataType.map2 c s)
  unfolding element_at add64
  element_at-bound2 c s r x y v h =
      let i = coordinate doubles casts (DataType.map2 c s) r x in
      let j = coordinate doubles casts (DataType.map2 c s) r y in
      let hi = coordinate-bound (DataType.map2 c s) r x v.1.0 v.1.1 in
      let hj = coordinate-bound (DataType.map2 c s) r y v.1.0 v.1.1 in
      let row = row-bound j s s i hj hi in omega (arith, row)

  element_at-bound :
      (r m p : DataType) (x y : D)
      → Indexing r m p
      → IsType m
      → Storage.doubles m < unsigned
      → element_at doubles casts m r x y < Storage.area m
  element_at-bound _ _ _ x y (Indexing.line c s) v h =
      element_at-bound1 c s (DataType.plain c) x y v
  element_at-bound _ _ _ x y (Indexing.square c s) v h =
      element_at-bound2 c s (DataType.plain c) x y v
        (omega (arith, area-room (s * s) (content_size c) (content_size-bound c v.0).0 h))

  -- The bytes of the collection, and those before an element of it, in doubles.
  bytes-room :
      (r m p : DataType)
      → Indexing r m p
      → IsType m
      → Storage.doubles m < unsigned
      → (byte_length r / 8 ≡ content_size (Storage.element m))
        × (byte_length r ≡ 8 * content_size (Storage.element m))
  unfolding byte_length
  bytes-room _ _ _ (Indexing.line c s) v h = omega (arith, content_size-bound c v.0)
  bytes-room _ _ _ (Indexing.square c s) v h = omega (arith, content_size-bound c v.0)

  length-bytes : (xs : List D) → length xs ≤ length (bytes doubles casts xs)
  length-bytes [] = omega arith
  length-bytes (x ∷ xs) =
      let bs = (casts.bytes_of x).1 in
      omega (arith, length-bytes xs, length-append bs (bytes doubles casts xs))

  greatest_diff-some :
      (max : D) (bs rs : List D)
      → length rs ≤ length bs
      → (d : D) × (greatest_diff doubles casts max bs rs ≡ some d)
  greatest_diff-some max bs [] h = (max, refl)
  greatest_diff-some max [] (r ∷ rs) h = absurd (omega arith)
  greatest_diff-some max (b ∷ bs) (r ∷ rs) h =
      let diff = doubles.fabs (doubles.sub b r) in
      greatest_diff-some (if doubles.less max diff then diff else max) bs rs (omega arith)

  on_write_result-read :
      (m r : DataType) (epsilon : D) (v : Value D) (s : Members D) (buf rest xs : List D)
      → s.collection_buf ≡ some buf
      → let e = element_at doubles casts m r s.x s.y in
        advance (((e * byte_length r) % word) / 8) buf ≡ some rest
        → overwrite (byte_length v.type / 8) rest v.content ≡ some xs
        → length v.content ≤ length rest
        → (changed : Bool) × (on_write_result doubles casts m r epsilon v s
            ≡ some (changed, record v { content = xs }, s))
  unfolding on_write_result read
  on_write_result-read m r epsilon v s buf rest xs b q o h =
      let (d, g) =
        greatest_diff-some doubles.zero (bytes doubles casts rest) v.content
          (omega (arith, length-bytes rest)) in
      (
        if s.collection_in || s.value_in then doubles.less epsilon d else true,
        ground (arith, b, q, o, g),
      )

  -- Whatever the position is, `value-at` leaves an element of the map in the result, and nothing but the
  -- map is read: for types that the type checker accepts and that the grammar can say, a map of less
  -- than 2^32 doubles, and a result and a map that hold what their types say.
  pub on_write_result-element :
      (r m p : DataType) (epsilon : D) (v : Value D) (s : Members D) (buf : List D)
      → Indexing r m p
      → IsType m
      → Storage.doubles m < unsigned
      → length buf ≡ Storage.doubles m
      → s.collection_buf ≡ some buf
      → v.type ≡ r
      → length v.content ≡ byte_length r / 8
      → let e = element_at doubles casts m r s.x s.y in
        (changed : Bool) × (xs : List D) × (e < Storage.area m)
        × ((advance (e * content_size (Storage.element m)) buf
              >>= take (content_size (Storage.element m)))
            ≡ some xs)
        × (on_write_result doubles casts m r epsilon v s
            ≡ some (changed, record v { content = xs }, s))
  on_write_result-element r m p epsilon v s buf i w h l b t k =
      let e = element_at doubles casts m r s.x s.y in
      let c = content_size (Storage.element m) in
      let n = element_at-bound r m p s.x s.y i w h in
      let by = bytes-room r m p i w h in
      let inside = element-bound e (Storage.area m) c n in
      let (rest, q, lq) = advance-length (e * c) buf (omega arith) in
      let vl : byte_length v.type / 8 ≡ c = ap (λ x. byte_length x / 8) t ∙ by.0 in
      let (xs, qt, qo) = overwrite-take c rest v.content (omega (arith, lq)) (omega arith) in
      let at : ((e * byte_length r) % word) / 8 ≡ e * c =
        ap (λ x. ((e * x) % word) / 8) by.1 ∙ omega (arith, mul_left_comm e 8 c) in
      let (changed, done) =
        on_write_result-read m r epsilon v s buf rest xs b (ap (λ k'. advance k' buf) at ∙ q)
          (ap (λ k'. overwrite k' rest v.content) vl ∙ qo) (omega (arith, lq, by)) in
      (changed, xs, n, rw q qt, done)
