-- ===== src/Operation/Compute/Match/Typed.antt =====
-- cxsom/src/cxsomOperation.hpp: `Match`, once its types are accepted, from the reading of its arguments
-- to its result.
use cxsom.Prelude.{
  ℕ, ◌*◌, ◌/◌, ◌<◌, ◌≡◌, refl, sym, ap, ◌∙◌, Bool, true, some, ◌>>=◌, List, length, arith,
}
use cxsom.Types.{Content, DataType, IsType, IsContent, unsigned, content_size, byte_length, is_map}
use cxsom.Types.Storage.{byte_length-doubles, content_size-bound}
use cxsom.Types.Storage
use cxsom.Types.Values.{Value, write}
use cxsom.Operation.Typed.{Matching}
use cxsom.Operation.Compute.{Doubles}
use cxsom.Operation.Compute.ValueAt.Bounds.{area-room}
use cxsom.Operation.Compute.Match.{Members, Kernel, read_data, on_write_result}
use cxsom.Operation.Compute.Match.Rows.{
  Matched, IsDefined, row_of, Knows, take-all, match_all-Matched, read_input-Knows,
}

-- The bytes of a map of less than 2^32 doubles.
bytes-room :
    (m : DataType)
    → is_map m ≡ true
    → IsType m
    → Storage.doubles m < unsigned
    → byte_length m / 8 ≡ Storage.doubles m
bytes-room (DataType.plain c) h v l = absurd (ground arith)
bytes-room (DataType.map1 c s) h v l =
    omega (arith, v, byte_length-doubles (DataType.map1 c s) v v.1.1)
bytes-room (DataType.map2 c s) h v l =
    let small = area-room (s * s) (content_size c) (content_size-bound c v.0).0 l in
    omega (arith, byte_length-doubles (DataType.map2 c s) v small)

module _ {D : Type 0} (doubles : Doubles D) (kernel : Kernel D) (defined : IsDefined kernel) where
  -- The weights are read, and the result is written.
  write-Matched :
      (c : Content) (xs : List D) (epsilon : D) (v w : Value D) (s : Members D)
      → Knows doubles kernel defined c xs s
      → is_map v.type ≡ true
      → length w.content ≡ byte_length w.type / 8
      → length w.content ≡ length v.content * content_size c
      → (changed : Bool) × (out : List D) × (s' : Members D) × ((read_data doubles 1 w s
            >>= on_write_result doubles kernel epsilon v)
          ≡ some (changed, record v { content = out }, s'))
        × (length out ≡ length v.content)
        × Matched (row_of kernel c xs) (content_size c) w.content out
  unfolding read_data write on_write_result
  write-Matched c xs epsilon v w s k m h l =
      let (d, out, q, n, r) =
        match_all-Matched doubles (row_of kernel c xs) (content_size c) k.total doubles.zero
          w.content v.content l in
      let t = take-all (byte_length w.type / 8) w.content h in
      (
        doubles.less epsilon d,
        out,
        record s { w = w.content },
        rw t (rw m (rw (k.known w.content) (rw q refl))),
        n,
        r,
      )

  on_content :
      (c : Content) (epsilon : D) (input weights v : Value D) (s : Members D)
      → IsContent c
      → input.type ≡ DataType.plain c
      → is_map v.type ≡ true
      → length input.content ≡ content_size c
      → length weights.content ≡ byte_length weights.type / 8
      → length weights.content ≡ length v.content * content_size c
      → (n : ℕ) → length v.content ≡ n
      → (changed : Bool) × (out : List D) × (s' : Members D) × ((read_data doubles 0 input s
            >>= λ t. read_data doubles 1 weights t >>= on_write_result doubles kernel epsilon v)
          ≡ some (changed, record v { content = out }, s'))
        × (length out ≡ n)
        × Matched (row_of kernel c input.content) (content_size c) weights.content out
  on_content c epsilon input weights v s i ti m li lw lv n ln =
      let same : record { type = DataType.plain c; content = input.content } ≡ input =
        ap (λ t. record { type = t; content = input.content }) (sym ti) in
      let (t, e, k) = read_input-Knows doubles kernel defined c input.content s i li in
      let (changed, out, s', q, l, o) =
        write-Matched c input.content epsilon v weights t k m lw lv in
      let read : read_data doubles 0 input s ≡ some t =
        ap (λ u. read_data doubles 0 u s) (sym same) ∙ e in
      (
        changed,
        out,
        s',
        ap
              (λ p. p >>= λ t.
                read_data doubles 1 weights t >>= on_write_result doubles kernel epsilon v)
              read
            ∙ q,
        l ∙ ln,
        o,
      )

  -- Whatever the members are before, when the input and then the weights have been read, each double of
  -- the result is what the function of the class gives for the next row of weights and the input that
  -- was read: the function of two doubles for an input of one double, else the function of runs. The
  -- types are accepted ones that the grammar can say, of less than 2^32 weights; each value holds what
  -- its type says, and the function of runs is defined on runs of one length.
  pub on_write_result-Matched :
      (r a w : DataType) (epsilon : D) (input weights v : Value D) (s : Members D)
      → Matching r a w
      → IsType w
      → Storage.doubles w < unsigned
      → input.type ≡ a
      → weights.type ≡ w
      → v.type ≡ r
      → length input.content ≡ content_size (Storage.element a)
      → length weights.content ≡ byte_length w / 8
      → length v.content ≡ Storage.area r
      → (changed : Bool) × (out : List D) × (s' : Members D) × ((read_data doubles 0 input s
            >>= λ t. read_data doubles 1 weights t >>= on_write_result doubles kernel epsilon v)
          ≡ some (changed, record v { content = out }, s'))
        × (length out ≡ Storage.area r)
        × Matched
            (row_of kernel (Storage.element a) input.content)
            (content_size (Storage.element a))
            weights.content
            out
  on_write_result-Matched _ _ _ epsilon input weights v s (Matching.line c n) i h ti tw tv li lw
        lv =
      on_content c epsilon input weights v s i.0 ti (ap is_map tv) li
        (lw ∙ ap (λ t. byte_length t / 8) (sym tw))
        (lw ∙ bytes-room (DataType.map1 c n) refl i h ∙ ap (λ k. k * content_size c) (sym lv)) n lv
  on_write_result-Matched _ _ _ epsilon input weights v s (Matching.square c n) i h ti tw tv li lw
        lv =
      on_content c epsilon input weights v s i.0 ti (ap is_map tv) li
        (lw ∙ ap (λ t. byte_length t / 8) (sym tw))
        (lw ∙ bytes-room (DataType.map2 c n) refl i h ∙ ap (λ k. k * content_size c) (sym lv))
        (n * n) lv
