-- ===== src/Data/File/Access/Skip.antt =====
-- cxsom/src/cxsomVariable.hpp, the class `File`: what a skip of dates does to the ring of slots.
use cxsom.Prelude.{
  ℕ, suc, ◌-◌, ◌+◌, ◌≤◌, ◌<◌, ◌≡◌, ◌⊎◌, min, arith, if◌then◌else◌, Bool, ◌||◌, ◌&&◌, ◌==◌, ltb, leb,
  word, add64, sub64, add64-eq,
}
use cxsom.Data.File.{blank, Disk, State, next_pos}
use cxsom.Data.File.Access.{clear, skip}
use cxsom.Data.File.Access.Slots.{clear-pos, clear-slot, clear-header, clear-count}

pub next_pos-eq :
    (p size : ℕ)
    → p < size
    → size + size < word
    → next_pos p size ≡ (if suc p == size then 0 else suc p)
unfolding next_pos add64
next_pos-eq p size a c = ground arith

-- Where a skip of `n` dates ends, and which slots it clears.
abbrev pub skip_pos : ℕ → ℕ → ℕ → ℕ
skip_pos size free n =
    if ltb size n then 0 else if ltb (free + n) size then free + n else free + n - size

abbrev pub is_cleared : ℕ → ℕ → ℕ → ℕ → Bool
is_cleared size free n q =
    ltb size n || ((leb free q && ltb q (free + n)) || ltb (q + size) (free + n))

to_end-eq :
    (size free n : ℕ)
    → free < size
    → n ≤ size
    → size + size < word
    → sub64 (min size (add64 free n)) free ≡ (if ltb (free + n) size then n else size - free)
unfolding sub64 add64
to_end-eq size free n a b c = ground arith

rest-eq :
    (size free n : ℕ)
    → free < size
    → n ≤ size
    → size + size < word
    → size ≤ free + n
    → sub64 (add64 free n) size ≡ free + n - size
unfolding sub64 add64
rest-eq size free n a b c d = ground arith

module _ {T D : Type 0} (zeros : D) (s : State T D) (n : ℕ)
    (bound : s.file.header.next_free_pos < s.file.header.file_size)
    (small : s.file.header.file_size + s.file.header.file_size < word) where
  abbrev tail : ℕ
  tail =
      sub64 (min s.file.header.file_size (add64 s.file.header.next_free_pos n))
        s.file.header.next_free_pos

  abbrev head : ℕ
  head = sub64 (add64 s.file.header.next_free_pos n) s.file.header.file_size

  abbrev first : ℕ × Disk T D
  first = clear (blank zeros) tail s.file.header.next_free_pos s.disk

  -- The lengths of the two clearings.
  first_length :
      n ≤ s.file.header.file_size
      → tail ≡ (
          if ltb (s.file.header.next_free_pos + n) s.file.header.file_size
          then n
          else s.file.header.file_size - s.file.header.next_free_pos)
  first_length h = to_end-eq s.file.header.file_size s.file.header.next_free_pos n bound h small

  second_length :
      n ≤ s.file.header.file_size
      → s.file.header.file_size ≤ s.file.header.next_free_pos + n
      → head ≡ s.file.header.next_free_pos + n - s.file.header.file_size
  second_length h k = rest-eq s.file.header.file_size s.file.header.next_free_pos n bound h small k

  sum-eq :
      n ≤ s.file.header.file_size
      → add64 s.file.header.next_free_pos n ≡ s.file.header.next_free_pos + n
  sum-eq h = add64-eq s.file.header.next_free_pos n (omega (arith, bound, small))

  pub skip-pos : (skip zeros n s).0 ≡ skip_pos s.file.header.file_size s.file.header.next_free_pos n
  unfolding skip
  skip-pos = ground (
    arith,
    bound,
    first_length,
    second_length,
    sum-eq,
    clear-pos (blank zeros) tail s.file.header.next_free_pos s.disk,
    clear-pos (blank zeros) head 0 first.1,
  )

  pub skip-free : (skip zeros n s).1 ≡ (
      if suc (skip_pos s.file.header.file_size s.file.header.next_free_pos n)
        == s.file.header.file_size
      then 0
      else suc (skip_pos s.file.header.file_size s.file.header.next_free_pos n))
  unfolding skip
  skip-free = ground (
    arith,
    bound,
    small,
    second_length,
    sum-eq,
    next_pos-eq 0 s.file.header.file_size,
    next_pos-eq (s.file.header.next_free_pos + n) s.file.header.file_size,
    next_pos-eq (s.file.header.next_free_pos + n - s.file.header.file_size) s.file.header.file_size,
  )

  pub skip-header : (skip zeros n s).2.header ≡ s.disk.header
  unfolding skip
  skip-header = ground (
    arith,
    clear-header (blank zeros) s.file.header.file_size 0 s.disk,
    clear-header (blank zeros) tail s.file.header.next_free_pos s.disk,
    clear-header (blank zeros) head 0 first.1,
  )

  pub skip-slot :
      (q : ℕ)
      → q < s.file.header.file_size
      → (skip zeros n s).2.slot q ≡ (
          if is_cleared s.file.header.file_size s.file.header.next_free_pos n q
          then blank zeros
          else s.disk.slot q)
  unfolding skip
  skip-slot q b = ground (
    arith,
    bound,
    first_length,
    second_length,
    sum-eq,
    clear-slot (blank zeros) s.file.header.file_size 0 s.disk q,
    clear-slot (blank zeros) tail s.file.header.next_free_pos s.disk q,
    clear-slot (blank zeros) head 0 first.1 q,
  )

  -- No slot is lost, and those that are cleared are there.
  pub skip-count :
      (s.disk.count ≤ (skip zeros n s).2.count)
      × (s.file.header.file_size < n ⊎ s.file.header.file_size ≤ s.file.header.next_free_pos + n
          → s.file.header.file_size ≤ (skip zeros n s).2.count)
      × (0 < n
          → s.file.header.next_free_pos + n < s.file.header.file_size
          → s.file.header.next_free_pos + n ≤ (skip zeros n s).2.count)
  unfolding skip
  skip-count = ground (
    arith,
    bound,
    first_length,
    second_length,
    sum-eq,
    clear-count (blank zeros) s.file.header.file_size 0 s.disk,
    clear-count (blank zeros) tail s.file.header.next_free_pos s.disk,
    clear-count (blank zeros) head 0 first.1,
  )
