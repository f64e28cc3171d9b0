-- ===== src/Data/File/History.antt =====
-- What the class `File` of cxsom/src/cxsomVariable.hpp promises: a history of which the last dates are kept.
pub mod Ring
pub mod Reading
pub mod Later
pub mod Skipping
pub mod Starting
pub mod Past
pub mod Writing
pub mod Lasting
pub mod Sharing
use cxsom.Prelude.{
  ℕ, suc, ◌-◌, ◌+◌, ◌≤◌, ◌<◌, ◌≡◌, Bool, true, false, ◌&&◌, if◌then◌else◌, ◌==◌, ltb, leb, word,
  Option, none, some,
}
use cxsom.Data.{FileAvailability}
use cxsom.Data.File.{Slot, File, State, no_time, next_time}

-- How many dates are kept, the first date that is beyond all writings, and the values written.
pub record History (D : Type 0) : Type 0 where
  pub size : ℕ
  pub next : ℕ
  pub value : ℕ → Option D

module _ {D : Type 0} where
  abbrev pub is_kept : ℕ → History D → Bool
  is_kept t h = ltb t h.next && leb h.next (t + h.size)

  -- What is not kept is forgotten if it is past, and busy if it is to come.
  unfoldable pub read : ℕ → History D → FileAvailability × Option D
  read t h =
      if is_kept t h
      then elim (h.value t) [
        | none ↦ (FileAvailability.busy, none)
        | some x ↦ (FileAvailability.ready, some x)
      ]
      else if ltb t h.next
      then (FileAvailability.forgotten, none)
      else (FileAvailability.busy, none)

  -- A value is kept when its date is, and is the first one written there.
  unfoldable pub write : ℕ → D → History D → FileAvailability × History D
  write t x h =
      let h' : History D = record {
        size = h.size;
        next = if ltb t h.next then h.next else suc t;
        value = λ u. if u == t then some x else h.value u;
      } in
      if h.size == 0
      then (FileAvailability.forgotten, record h' { value = h.value })
      else if is_kept t h
      then elim (h.value t) [
        | none ↦ (FileAvailability.busy, h')
        | some y ↦ (FileAvailability.ready, h)
      ]
      else if ltb t h.next
      then (FileAvailability.forgotten, h)
      else (FileAvailability.busy, h')

-- Where a date is, that is `k` dates before the highest one.
abbrev pub place : ℕ → ℕ → ℕ → ℕ
place free k size = if ltb k free then free - k - 1 else size + free - k - 1

abbrev pub content_of : {D : Type 0} → Slot D → Option D
content_of s = if s.flag == 0 then none else some s.content

-- The ring: until it is full, the date of a slot is its position.
pub record IsRing (size next free count : ℕ) : Type 0 where
  pub bound : free < size
  pub partial : next < size → free ≡ next
  pub full : next ≡ size → free ≡ 0
  pub there : (p : ℕ) → p < size → p < next → p < count

-- A realized file whose memory agrees with its disk, and whose slots hold the history.
pub record Represents {T D : Type 0} (s : State T D) (h : History D) : Type 0 where
  pub realized : s.file.realized ≡ true
  pub synced : s.disk.header ≡ s.file.header
  pub size_eq : s.file.header.file_size ≡ h.size
  pub size_bound : h.size + h.size < word
  pub date_bound : s.file.header.highest_time < word
  pub next_eq :
      (if s.file.header.highest_time == no_time then 0 else suc s.file.header.highest_time) ≡ h.next
  pub ring : 0 < h.size → 0 < h.next → IsRing h.size h.next s.file.header.next_free_pos s.disk.count
  pub slots :
      (t : ℕ)
      → t < h.next
      → h.next ≤ t + h.size
      → content_of (s.disk.slot (place s.file.header.next_free_pos (h.next - 1 - t) h.size))
        ≡ h.value t
  pub future : (t : ℕ) → h.next ≤ t → h.value t ≡ none
