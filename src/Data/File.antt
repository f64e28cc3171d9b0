-- ===== src/Data/File.antt =====
-- cxsom/src/cxsomVariable.hpp, the class `File`: the circular buffer of a variable, on the disk.
-- A file is its header and its slots; a slot is a status byte and the bytes of a data, so that
-- `data_size` is the unit of a position. A header field holds the number that `write_uint` puts there.
pub mod Access
pub mod Uint
pub mod Tests
pub mod History
use cxsom.Prelude.{
  ℕ, suc, zero, ◌-◌, max, Bool, true, false, not, if◌then◌else◌, ◌==◌, ltb, add64, sub64, Option,
  none, some, ◌=?◌, Eq,
}

-- `no_time()`
abbrev pub no_time : ℕ
no_time = 18446744073709551615

-- The errors thrown: `error::file` and `error::type_mismatch`, and the `eofbit` exception of the stream.
pub data FileError : Type 0 where
  not_realized type_mismatch no_type no_cache_size no_file_size end_of_file : FileError

pub record Header : Type 0 where
  pub cache_size : ℕ
  pub file_size : ℕ
  pub highest_time : ℕ
  pub next_free_pos : ℕ

-- The status byte, and the content.
pub record Slot (D : Type 0) : Type 0 where
  pub flag : ℕ
  pub content : D

-- A slot of zeros; `zeros` is the data whose bytes are all 0.
abbrev pub blank : {D : Type 0} → D → Slot D
blank zeros = record { flag = 0; content = zeros }

-- The file on the disk: the type written first, the header, the slots, and how many slots it has.
pub record Disk (T D : Type 0) : Type 0 where
  pub type : T
  pub header : Header
  pub slot : ℕ → Slot D
  pub count : ℕ

-- The members of the object that the operations read and write.
pub record File (T : Type 0) : Type 0 where
  pub type : Option T
  pub header : Header
  pub realized : Bool

pub record State (T D : Type 0) : Type 0 where
  pub file : File T
  pub disk : Disk T D

-- The position that follows, in a ring of the length given.
unfoldable pub next_pos : ℕ → ℕ → ℕ
next_pos current_pos length = let res = add64 current_pos 1 in if res == length then 0 else res

abbrev pub is_past_in_buffer : ℕ → ℕ → Bool
is_past_in_buffer highest_time_minus_at length = ltb highest_time_minus_at length

unfoldable pub pos_in_past : ℕ → ℕ → ℕ → ℕ
pos_in_past current_free_pos highest_time_minus_at length =
    if ltb highest_time_minus_at current_free_pos
    then sub64 (sub64 current_free_pos highest_time_minus_at) 1
    else sub64 (sub64 (add64 length current_free_pos) highest_time_minus_at) 1

-- `get_next_time`
abbrev pub next_time : Header → ℕ
next_time h = if h.highest_time == no_time then 0 else add64 h.highest_time 1

-- `get_time_range`
abbrev pub time_range : Header → ℕ × ℕ
time_range h =
    if h.highest_time == no_time
    then (no_time, no_time)
    else if h.file_size == 0
    then (h.highest_time, h.highest_time)
    else if ltb h.highest_time h.file_size
    then (0, h.highest_time)
    else (add64 (sub64 h.highest_time h.file_size) 1, h.highest_time)

module _ {T D : Type 0} ⦃e : Eq T⦄ where
  -- `realize`, with the error it throws. `none` is a file that does not exist yet; the slots of
  -- a file that is created are not there, and read as zeros once something is put behind them.
  unfoldable pub realize :
      D
      → Option T
      → Option ℕ
      → Option ℕ
      → File T
      → Option (Disk T D)
      → Option FileError × File T × Option (Disk T D)
  realize zeros type cache_size file_size f (some d) =
      let mismatch : Bool = elim type [ none ↦ false | some t ↦ not (d.type =? t) ] in
      let cache : ℕ = elim cache_size [ none ↦ d.header.cache_size | some c ↦ c ] in
      let header : Header = record d.header { cache_size = cache } in
      if mismatch
      then (some FileError.type_mismatch, record f { type = some d.type }, some d)
      else (
        none,
        record { type = some d.type; header = header; realized = true },
        some (record d { header = header }),
      )
  realize zeros none cache_size file_size f none = (some FileError.no_type, f, none)
  realize zeros (some t) none file_size f none = (some FileError.no_cache_size, f, none)
  realize zeros (some t) (some c) none f none = (some FileError.no_file_size, f, none)
  realize zeros (some t) (some c) (some s) f none =
      let header : Header = record {
        cache_size = c;
        file_size = s;
        highest_time = no_time;
        next_free_pos = 0;
      } in
      (
        none,
        record { type = some t; header = header; realized = true },
        some (record { type = t; header = header; slot = λ p. blank zeros; count = 0 }),
      )
