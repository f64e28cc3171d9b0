-- ===== src/Data/File/Uint.antt =====
-- cxsom/src/cxsomVariable.hpp, the class `File`: the numbers of the header, in 8 bytes.
use cxsom.Prelude.{ℕ, suc, zero, ◌+◌, ◌*◌, ◌/◌, ◌%◌, ◌<◌, ◌≡◌, arith, List, [], ◌∷◌, word}

-- `n` times `file.put((char)(val & 0xFF)); val >>= 8;`
unfoldable pub put_bytes : ℕ → ℕ → List ℕ
put_bytes zero val = []
put_bytes (suc n) val = val % 256 ∷ put_bytes n (val / 256)

-- `write_uint`, where `cxsom_UINT_LENGTH` is 8.
abbrev pub write_uint : ℕ → List ℕ
write_uint val = put_bytes 8 val

-- `nb |= (byte << shift)` for each byte; the bits of the bytes are apart, so that `|` is a sum.
unfoldable pub or_bytes : ℕ → List ℕ → ℕ
or_bytes scale [] = 0
or_bytes scale (byte ∷ buf) = byte * scale + or_bytes (scale * 256) buf

-- `read_uint`
abbrev pub read_uint : List ℕ → ℕ
read_uint buf = or_bytes 1 buf % word

-- `read_uint` reads back from the 8 bytes of `write_uint` any number that is less than 2^64.
pub read_uint-write_uint : (val : ℕ) → val < word → read_uint (write_uint val) ≡ val
unfolding or_bytes put_bytes
read_uint-write_uint val h = omega arith
