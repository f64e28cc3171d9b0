-- ===== src/Data/File/History/Reading.antt =====
-- cxsom/src/cxsomVariable.hpp, the class `File`: the ring of slots holds the history.
use cxsom.Prelude.{ℕ, ◌-◌, ◌+◌, ◌≤◌, ◌<◌, ◌≡◌, inr, arith, ap, ◌∙◌, word, add64, sub64}
use cxsom.Data.File.{State, pos_in_past}
use cxsom.Data.File.Access.{read}
use cxsom.Data.File.History.{History, Represents, IsRing, place, content_of, is_kept}
use cxsom.Data.File.History

pub pos_in_past-eq :
    (free k size : ℕ)
    → k < size
    → free < size
    → size + size < word
    → pos_in_past free k size ≡ place free k size
unfolding pos_in_past sub64 add64
pos_in_past-eq free k size a b c = ground arith

place-there :
    (free size next count t : ℕ)
    → IsRing size next free count
    → t < next
    → next ≤ t + size
    → place free (next - 1 - t) size < count
place-there free size next count t r a b =
    ground (arith, r.bound, r.partial, r.full, r.there (place free (next - 1 - t) size))

module _ {T D : Type 0} where
  -- Where `read` and `write` look for a date.
  abbrev pub found : State T D → ℕ → ℕ
  found s t =
      pos_in_past s.file.header.next_free_pos (sub64 s.file.header.highest_time t)
        s.file.header.file_size

  pub back-eq :
      (s : State T D) (h : History D) (t : ℕ)
      → Represents s h
      → t < h.next
      → sub64 s.file.header.highest_time t ≡ h.next - 1 - t
  unfolding sub64
  back-eq s h t r a = ground (arith, r.date_bound, r.next_eq)

  -- The position of a date that is kept.
  pub found-eq :
      (s : State T D) (h : History D) (t : ℕ)
      → Represents s h
      → t < h.next
      → h.next ≤ t + h.size
      → found s t ≡ place s.file.header.next_free_pos (h.next - 1 - t) h.size
  found-eq s h t r a b = ground (
    arith,
    back-eq s h t r a,
    r.size_eq,
    r.size_bound,
    (r.ring (omega arith) (omega arith)).bound,
    pos_in_past-eq s.file.header.next_free_pos (h.next - 1 - t) h.size,
  )

  pub found-there :
      (s : State T D) (h : History D) (t : ℕ)
      → Represents s h
      → t < h.next
      → h.next ≤ t + h.size
      → found s t < s.disk.count
  found-there s h t r a b = ground (
    arith,
    found-eq s h t r a b,
    place-there s.file.header.next_free_pos h.size h.next s.disk.count t
        (r.ring (omega arith) (omega arith)) a b,
  )

  pub found-content :
      (s : State T D) (h : History D) (t : ℕ)
      → Represents s h
      → t < h.next
      → h.next ≤ t + h.size
      → content_of (s.disk.slot (found s t)) ≡ h.value t
  found-content s h t r a b =
      ap (λ p. content_of (s.disk.slot p)) (found-eq s h t r a b) ∙ r.slots t a b

  -- A file that holds a history is read at any date without an error, with the answer and the
  -- content of the history: `Ready` with what was written, `Busy` for a date that is kept and not
  -- written or is to come, `Forgotten` for a date that is past and not kept.
  pub read-Represents :
      (s : State T D) (h : History D) (t : ℕ) → Represents s h → read t s ≡ inr (History.read t h)
  unfolding read History.read
  read-Represents s h t r = ground (
    arith,
    r.realized,
    r.size_eq,
    r.next_eq,
    r.date_bound,
    back-eq s h t r,
    found-there s h t r,
    found-content s h t r,
  )
