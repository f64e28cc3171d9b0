-- ===== src/Data/File/History/Lasting.antt =====
-- cxsom/src/cxsomVariable.hpp, the class `File`: what `read` finds after a `write`.
use cxsom.Prelude.{ℕ, ◌<◌, ◌≡◌, ◌⊎◌, inr, arith, sym, subst, ap, ◌∙◌, none, some}
use cxsom.Data.{FileAvailability}
use cxsom.Data.File.{State, no_time}
use cxsom.Data.File.Access.{read, write}
use cxsom.Data.File.History.{History, Represents}
use cxsom.Data.File.History
use cxsom.Data.File.History.Later.{Refines}
use cxsom.Data.File.History.Reading.{read-Represents}
use cxsom.Data.File.History.Writing.{write-Refines}

module _ {D : Type 0} where
  history_ready :
      (h : History D) (t u : ℕ) (x y : D)
      → History.read u h ≡ (FileAvailability.ready, some y)
      → (History.read u (History.write t x h).1 ≡ (FileAvailability.ready, some y))
        ⊎ (History.read u (History.write t x h).1 ≡ (FileAvailability.forgotten, none))
  unfolding History.read History.write
  history_ready h t u x y e = ground arith

  history_written :
      (h : History D) (t : ℕ) (x : D)
      → (History.write t x h).0 ≡ FileAvailability.busy
      → History.read t (History.write t x h).1 ≡ (FileAvailability.ready, some x)
  unfolding History.read History.write
  history_written h t x e = ground arith

module _ {T D : Type 0} (zeros : D) (s s' : State T D) (h : History D) (t : ℕ) (x : D)
    (a : FileAvailability) (r : Represents s h) (b : t < no_time)
    (w : write zeros t x s ≡ inr (a, s')) where
  written : Refines (inr (a, s')) (History.write t x h)
  written = subst (λ o. Refines o (History.write t x h)) w (write-Refines zeros s h t x r b)

  -- In a file that holds a history, when a writing at a date other than `no_time` answers `Busy`,
  -- the date is read as `Ready`, with the content that was written.
  pub read-write : a ≡ FileAvailability.busy → read t s' ≡ inr (FileAvailability.ready, some x)
  read-write e =
      read-Represents s' (History.write t x h).1 t written.1
      ∙ ap inr (history_written h t x (sym written.0 ∙ e))

  -- What is ready lasts: in a file that holds a history, a date that is read as `Ready` with a
  -- content is read, after a writing at a date other than `no_time` (this one or another), as
  -- `Ready` with the same content, or as `Forgotten`.
  pub read-write-ready :
      (u : ℕ) (y : D)
      → read u s ≡ inr (FileAvailability.ready, some y)
      → (read u s' ≡ inr (FileAvailability.ready, some y))
        ⊎ (read u s' ≡ inr (FileAvailability.forgotten, none))
  read-write-ready u y e = ground (
    arith,
    read-Represents s h u r,
    read-Represents s' (History.write t x h).1 u written.1,
    history_ready h t u x y,
  )
