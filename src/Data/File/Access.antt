-- ===== src/Data/File/Access.antt =====
-- cxsom/src/cxsomVariable.hpp, the class `File`: `write`, `read` and `sync`.
pub mod Slots
pub mod Skip
use cxsom.Prelude.{
  ℕ, suc, zero, ◌-◌, ◌+◌, min, max, Bool, true, false, not, ◌||◌, if◌then◌else◌, ◌==◌, ltb, leb,
  add64, sub64, Option, none, some, ◌⊎◌, inl, inr,
}
use cxsom.Data.{FileAvailability}
use cxsom.Data.File.{
  FileError, Header, Slot, blank, Disk, File, State, no_time, next_pos, is_past_in_buffer,
  pos_in_past,
}

module _ {T D : Type 0} where
  -- What is put at a position, the file being extended when it ends there or before.
  unfoldable pub put : ℕ → Slot D → Disk T D → Disk T D
  put p s d = record d { slot = λ q. if q == p then s else d.slot q; count = max d.count (suc p) }

  -- A loop of `file.put(0)` over a number of slots, from a position; it ends at a position.
  unfoldable pub clear : Slot D → ℕ → ℕ → Disk T D → ℕ × Disk T D
  clear blank zero p d = (p, d)
  clear blank (suc n) p d = clear blank n (suc p) (put p blank d)

  -- The content is written while the slot is busy, then the slot is marked as ready.
  unfoldable pub fill : ℕ → D → Disk T D → Disk T D
  fill p x d = put p (record { flag = 1; content = x }) (put p (record { flag = 0; content = x }) d)

  -- `highest_time` is written in the header.
  abbrev pub put_highest : ℕ → State T D → State T D
  put_highest at s = record {
    file = record s.file { header = record s.file.header { highest_time = at } };
    disk = record s.disk { header = record s.disk.header { highest_time = at } };
  }

  -- `highest_time` and `next_free_pos` are written in the header.
  abbrev pub put_end : ℕ → ℕ → Disk T D → State T D → State T D
  put_end at free d s = record {
    file = record s.file {
      header = record s.file.header { highest_time = at; next_free_pos = free };
    };
    disk = record d { header = record d.header { highest_time = at; next_free_pos = free } };
  }

  -- `write` in a file that keeps nothing.
  unfoldable pub write_unbuffered : ℕ → State T D → FileAvailability × State T D
  write_unbuffered at s =
      let h = s.file.header in
      (
        FileAvailability.forgotten,
        if h.highest_time == no_time || ltb h.highest_time at then put_highest at s else s,
      )

  -- `write` in an empty buffer.
  unfoldable pub write_first : D → ℕ → D → State T D → FileAvailability × State T D
  write_first zeros at x s =
      let h = s.file.header in
      if leb h.file_size at
      then (let (p, d) = clear (blank zeros) h.file_size 0 s.disk in
          (FileAvailability.busy, put_end at (next_pos 0 h.file_size) (fill 0 x d) s))
      else (let (p, d) = clear (blank zeros) at 0 s.disk in
          (FileAvailability.busy, put_end at (next_pos at h.file_size) (fill p x d) s))

  -- `write` at a date that is not beyond the highest one. A slot that is not there is an error.
  unfoldable pub write_past : ℕ → D → State T D → FileError ⊎ (FileAvailability × State T D)
  write_past at x s =
      let h = s.file.header in
      let back = sub64 h.highest_time at in
      let p = pos_in_past h.next_free_pos back h.file_size in
      if not (is_past_in_buffer back h.file_size)
      then inr (FileAvailability.forgotten, s)
      else if leb s.disk.count p
      then inl FileError.end_of_file
      else if not ((s.disk.slot p).flag == 0)
      then inr (FileAvailability.ready, s)
      else inr (
        FileAvailability.busy,
        record s {
          disk =
              put p (record { flag = 1; content = x })
                (put p (record { flag = (s.disk.slot p).flag; content = x }) s.disk);
        },
      )

  -- The dates that are skipped are cleared: where to write, the next free position, the disk.
  unfoldable pub skip : D → ℕ → State T D → ℕ × ℕ × Disk T D
  skip zeros nb_zeros s =
      let h = s.file.header in
      let data_pos = add64 h.next_free_pos nb_zeros in
      let nb_to_the_end = sub64 (min h.file_size data_pos) h.next_free_pos in
      if ltb h.file_size nb_zeros
      then (let (p, d) = clear (blank zeros) h.file_size 0 s.disk in (0, next_pos 0 h.file_size, d))
      else (let (p, d) = clear (blank zeros) nb_to_the_end h.next_free_pos s.disk in
          if leb h.file_size data_pos
          then (let data_pos' = sub64 data_pos h.file_size in
              let (p', d') = clear (blank zeros) data_pos' 0 d in
              (p', next_pos data_pos' h.file_size, d'))
          else (p, next_pos data_pos h.file_size, d))

  -- `write` beyond the highest date.
  unfoldable pub write_future : D → ℕ → D → State T D → FileAvailability × State T D
  write_future zeros at x s =
      let (p, free, d) = skip zeros (sub64 (sub64 at 1) s.file.header.highest_time) s in
      (FileAvailability.busy, put_end at free (fill p x d) s)

  unfoldable pub write : D → ℕ → D → State T D → FileError ⊎ (FileAvailability × State T D)
  write zeros at x s =
      let h = s.file.header in
      if not s.file.realized
      then inl FileError.not_realized
      else if h.file_size == 0
      then inr (write_unbuffered at s)
      else if h.highest_time == no_time
      then inr (write_first zeros at x s)
      else if leb at h.highest_time
      then write_past at x s
      else inr (write_future zeros at x s)

  -- `read`, with the content that is read.
  unfoldable pub read : ℕ → State T D → FileError ⊎ (FileAvailability × Option D)
  read at s =
      let h = s.file.header in
      let back = sub64 h.highest_time at in
      let p = pos_in_past h.next_free_pos back h.file_size in
      if not s.file.realized
      then inl FileError.not_realized
      else if h.file_size == 0
      then (if h.highest_time == no_time || ltb h.highest_time at
          then inr (FileAvailability.busy, none)
          else inr (FileAvailability.forgotten, none))
      else if h.highest_time == no_time || ltb h.highest_time at
      then inr (FileAvailability.busy, none)
      else if not (is_past_in_buffer back h.file_size)
      then inr (FileAvailability.forgotten, none)
      else if leb s.disk.count p
      then inl FileError.end_of_file
      else if (s.disk.slot p).flag == 0
      then inr (FileAvailability.busy, none)
      else inr (FileAvailability.ready, some (s.disk.slot p).content)

  -- `sync`
  unfoldable pub sync : State T D → FileError ⊎ State T D
  sync s =
      if not s.file.realized
      then inl FileError.not_realized
      else inr (record s { file = record s.file { header = s.disk.header } })
