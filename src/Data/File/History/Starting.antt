-- ===== src/Data/File/History/Starting.antt =====
-- cxsom/src/cxsomVariable.hpp, the class `File`: `write_unbuffered`, and `write_first` in an empty buffer.
use cxsom.Prelude.{
  ℕ, suc, ◌-◌, ◌≤◌, ◌<◌, ◌≡◌, inl, inr, arith, refl, ap, sym, subst, ltb, some, Bool-cases,
}
use cxsom.Data.{FileAvailability}
use cxsom.Data.File.{Header, blank, State, no_time}
use cxsom.Data.File.Access.{write_unbuffered, write_first, put_end, put_highest, fill, clear}
use cxsom.Data.File.Access.Slots.{clear-pos, clear-slot, clear-header, clear-count}
use cxsom.Data.File.Access.Skip.{next_pos-eq}
use cxsom.Data.File.History.{History, Represents, IsRing, place, content_of, is_kept}
use cxsom.Data.File.History.Ring.{after}
use cxsom.Data.File.History
use cxsom.Data.File.History.Later.{Refines, later, write-later, new-Represents}

module _ {T D : Type 0} where
  pub unbuffered-past :
      (s : State T D) (h : History D) (t : ℕ) (x : D)
      → Represents s h
      → h.size ≡ 0
      → t < h.next
      → Refines (inr (write_unbuffered t s)) (History.write t x h)
  unfolding write_unbuffered History.write
  unbuffered-past s h t x r z a = ground (arith, r.next_eq, r.date_bound)

  put_highest-Represents :
      (s : State T D) (h : History D) (t : ℕ)
      → Represents s h
      → h.size ≡ 0
      → h.next ≤ t
      → t < no_time
      → Represents (put_highest t s) (record h { next = suc t })
  put_highest-Represents s h t r z a b = record {
    realized = r.realized;
    synced = ap {A = Header} (λ f. record f { highest_time = t }) r.synced;
    size_eq = r.size_eq;
    size_bound = r.size_bound;
    date_bound = omega arith;
    next_eq = ground arith;
    ring = λ c. omega arith;
    slots = λ u c d. ground arith;
    future = λ u c. r.future u (omega arith);
  }

  pub unbuffered-future :
      (s : State T D) (h : History D) (t : ℕ) (x : D)
      → Represents s h
      → h.size ≡ 0
      → h.next ≤ t
      → t < no_time
      → Refines (inr (write_unbuffered t s)) (History.write t x h)
  unfolding write_unbuffered History.write
  unbuffered-future s h t x r z a b =
      ground (arith, r.next_eq, r.date_bound, put_highest-Represents s h t r z a b)

  -- The first date, in a buffer of which the first `n` slots are cleared.
  started-Represents :
      (zeros : D) (s : State T D) (h : History D) (t n p : ℕ) (x : D)
      → Represents s h
      → 0 < h.size
      → h.next ≡ 0
      → t < no_time
      → (t < h.size → (n ≡ t) × (p ≡ t))
      → (h.size ≤ t → (n ≡ h.size) × (p ≡ 0))
      → Represents
          (put_end t (after p h.size) (fill p x (clear (blank zeros) n 0 s.disk).1) s)
          (later t (some x) h)
  started-Represents zeros s h t n p x r z a c i j =
      new-Represents s h t x p (clear (blank zeros) n 0 s.disk).1 r z (omega arith) c
        (ground (arith, i, j)) (clear-header (blank zeros) n 0 s.disk)
        (record {
          bound = ground (arith, i, j);
          partial = ground (arith, i, j);
          full = ground (arith, i, j);
          there = λ q k l. ground (arith, i, j, clear-count (blank zeros) n 0 s.disk);
        })
        (λ u k l. ground (
          arith,
          i,
          j,
          r.future u (omega arith),
          clear-slot (blank zeros) n 0 s.disk (place (after p h.size) (t - u) h.size),
        ))

  first-full :
      (zeros : D) (s : State T D) (h : History D) (t : ℕ) (x : D)
      → Represents s h
      → 0 < h.size
      → h.size ≤ t
      → write_first zeros t x s ≡ (
        FileAvailability.busy,
        put_end t (after 0 h.size) (fill 0 x (clear (blank zeros) h.size 0 s.disk).1) s,
      )
  unfolding write_first
  first-full zeros s h t x r z a =
      ground (arith, r.size_eq, r.size_bound, next_pos-eq 0 s.file.header.file_size)

  first-partial :
      (zeros : D) (s : State T D) (h : History D) (t : ℕ) (x : D)
      → Represents s h
      → t < h.size
      → write_first zeros t x s ≡ (
        FileAvailability.busy,
        put_end t (after t h.size) (fill t x (clear (blank zeros) t 0 s.disk).1) s,
      )
  unfolding write_first
  first-partial zeros s h t x r a = ground (
    arith,
    r.size_eq,
    r.size_bound,
    next_pos-eq t s.file.header.file_size,
    clear-pos (blank zeros) t 0 s.disk,
  )

  first-Refines-later :
      (zeros : D) (s : State T D) (h : History D) (t : ℕ) (x : D)
      → Represents s h
      → 0 < h.size
      → h.next ≡ 0
      → t < no_time
      → Refines (inr (write_first zeros t x s)) (FileAvailability.busy, later t (some x) h)
  first-Refines-later zeros s h t x r z a c = elim (Bool-cases (ltb t h.size)) [
    | inl e ↦
        subst (λ o. Refines (inr o) (FileAvailability.busy, later t (some x) h))
          (sym (first-partial zeros s h t x r (ground arith)))
          (
            refl,
            started-Represents zeros s h t t t x r z a c (λ m. (refl, refl)) (λ m. ground arith),
          )
    | inr e ↦
        subst (λ o. Refines (inr o) (FileAvailability.busy, later t (some x) h))
          (sym (first-full zeros s h t x r z (ground arith)))
          (
            refl,
            started-Represents zeros s h t h.size 0 x r z a c (λ m. ground arith)
                (λ m. (refl, refl)),
          )
  ]

  pub first-Refines :
      (zeros : D) (s : State T D) (h : History D) (t : ℕ) (x : D)
      → Represents s h
      → 0 < h.size
      → h.next ≡ 0
      → t < no_time
      → Refines (inr (write_first zeros t x s)) (History.write t x h)
  first-Refines zeros s h t x r z a c =
      subst (λ o. Refines (inr (write_first zeros t x s)) o)
        (sym (write-later h t x z (omega arith))) (first-Refines-later zeros s h t x r z a c)
