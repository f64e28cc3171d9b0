-- ===== src/Data/File/History/Ring.antt =====
-- cxsom/src/cxsomVariable.hpp, the class `File`: the arithmetic of the ring when dates are skipped.
use cxsom.Prelude.{
  ℕ, suc, ◌-◌, ◌+◌, ◌≤◌, ◌<◌, ◌≡◌, ◌≢◌, ◌⊎◌, arith, if◌then◌else◌, true, false, ◌==◌, max,
}
use cxsom.Data.File.Access.Skip.{skip_pos, is_cleared}
use cxsom.Data.File.History.{IsRing, place}

-- The position that follows in the ring.
abbrev pub after : ℕ → ℕ → ℕ
after p size = if suc p == size then 0 else suc p

pub skip_pos-bound : (size free n : ℕ) → free < size → skip_pos size free n < size
skip_pos-bound size free n b = ground arith

pub place-bound : (free k size : ℕ) → free < size → k < size → place free k size < size
place-bound free k size b c = ground arith

pub place-after : (p size : ℕ) → p < size → place (after p size) 0 size ≡ p
place-after p size b = ground arith

pub place-ne-after : (p size k : ℕ) → p < size → k < size → 0 < k → place (after p size) k size ≢ p
place-ne-after p size k b c d = ground arith

-- A date that was skipped is in a slot that is cleared, an older one in the slot that it had.
pub place-cleared :
    (size free n k : ℕ)
    → free < size
    → k < size
    → 0 < k
    → k ≤ n
    → is_cleared size free n (place (after (skip_pos size free n) size) k size) ≡ true
place-cleared size free n k a b c d = ground arith

pub place-kept :
    (size free n k : ℕ)
    → free < size
    → k < size
    → n < k
    → (is_cleared size free n (place (after (skip_pos size free n) size) k size) ≡ false)
      × (place (after (skip_pos size free n) size) k size ≡ place free (k - n - 1) size)
place-kept size free n k a b c = ground arith

-- The ring goes on.
pub skip-IsRing :
    (size next free n count count' : ℕ)
    → IsRing size next free count
    → count ≤ count'
    → (size < n ⊎ size ≤ free + n → size ≤ count')
    → (0 < n → free + n < size → free + n ≤ count')
    → IsRing size
        (suc (next + n))
        (after (skip_pos size free n) size)
        (max count' (suc (skip_pos size free n)))
skip-IsRing size next free n count count' r a b c = record {
  bound = ground (arith, r.bound);
  partial = ground (arith, r.bound, r.partial, r.full);
  full = ground (arith, r.bound, r.partial, r.full);
  there = λ p h k. ground (arith, r.bound, r.partial, r.full, r.there p);
}

-- Two dates that are kept are in two slots.
pub place-inj :
    (size free k l : ℕ)
    → free < size
    → k < size
    → l < size
    → place free k size ≡ place free l size
    → k ≡ l
place-inj size free k l a b c e = ground arith
