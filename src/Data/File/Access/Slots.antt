-- ===== src/Data/File/Access/Slots.antt =====
-- The slots of a file after a clearing, a filling and a skip.
use cxsom.Prelude.{ℕ, suc, zero, ◌+◌, ◌≤◌, ◌<◌, ◌≡◌, arith, refl, if◌then◌else◌, ◌&&◌, ltb, leb}
use cxsom.Data.File.{Slot, Disk}
use cxsom.Data.File.Access.{put, clear}

module _ {T D : Type 0} where
  pub clear-pos : (b : Slot D) (n p : ℕ) (d : Disk T D) → (clear b n p d).0 ≡ p + n
  unfolding clear
  clear-pos b zero p d = omega arith
  clear-pos b (suc n) p d = omega (arith, clear-pos b n (suc p) (put p b d))

  -- The slots that are cleared are blank, and the others are as before.
  pub clear-slot :
      (b : Slot D) (n p : ℕ) (d : Disk T D) (q : ℕ)
      → (clear b n p d).1.slot q ≡ (if leb p q && ltb q (p + n) then b else d.slot q)
  unfolding clear put
  clear-slot b zero p d q = ground arith
  clear-slot b (suc n) p d q = ground (arith, clear-slot b n (suc p) (put p b d) q)

  pub clear-header : (b : Slot D) (n p : ℕ) (d : Disk T D) → (clear b n p d).1.header ≡ d.header
  unfolding clear put
  clear-header b zero p d = refl
  clear-header b (suc n) p d = clear-header b n (suc p) (put p b d)

  -- No slot is lost, and those that are cleared are there.
  pub clear-count :
      (b : Slot D) (n p : ℕ) (d : Disk T D)
      → (d.count ≤ (clear b n p d).1.count) × ((zero < n → p + n ≤ (clear b n p d).1.count))
  unfolding clear put
  clear-count b zero p d = (omega arith, λ h. omega arith)
  clear-count b (suc n) p d = ground (arith, clear-count b n (suc p) (put p b d))
