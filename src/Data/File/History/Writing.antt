-- ===== src/Data/File/History/Writing.antt =====
-- cxsom/src/cxsomVariable.hpp, the class `File`: `write` adds to the history that the file holds.
use cxsom.Prelude.{ℕ, ◌<◌, arith}
use cxsom.Data.File.{State, no_time}
use cxsom.Data.File.Access.{write}
use cxsom.Data.File.History.{History, Represents, IsRing, place, content_of, is_kept}
use cxsom.Data.File.History
use cxsom.Data.File.History.Later.{Refines}
use cxsom.Data.File.History.Skipping.{future-Refines}
use cxsom.Data.File.History.Starting.{unbuffered-past, unbuffered-future, first-Refines}
use cxsom.Data.File.History.Past.{past-Refines}

module _ {T D : Type 0} where
  -- In a file that holds a history, a writing at a date that is less than `no_time` succeeds,
  -- answers as the writing in the history does, and leaves a file that holds the history after
  -- the writing.
  pub write-Refines :
      (zeros : D) (s : State T D) (h : History D) (t : ℕ) (x : D)
      → Represents s h
      → t < no_time
      → Refines (write zeros t x s) (History.write t x h)
  unfolding write
  write-Refines zeros s h t x r b = ground (
    arith,
    r.realized,
    r.size_eq,
    r.next_eq,
    r.date_bound,
    unbuffered-past s h t x r,
    unbuffered-future s h t x r,
    first-Refines zeros s h t x r,
    future-Refines zeros s h t x r,
    past-Refines s h t x r,
  )
