-- ===== src/Data/File/History/Past.antt =====
-- cxsom/src/cxsomVariable.hpp, the class `File`: `write_past`, in a slot that is there.
use cxsom.Prelude.{
  ℕ, ◌-◌, ◌+◌, ◌≤◌, ◌<◌, ◌≡◌, inl, inr, arith, if◌then◌else◌, ◌==◌, ltb, none, some, Bool-cases,
  Option-cases,
}
use cxsom.Data.{FileAvailability}
use cxsom.Data.File.{State}
use cxsom.Data.File.Access.{write_past, put}
use cxsom.Data.File.History.{History, Represents, IsRing, place, content_of, is_kept}
use cxsom.Data.File.History.Ring.{place-inj}
use cxsom.Data.File.History.Reading.{found, back-eq, found-eq, found-there, found-content}
use cxsom.Data.File.History
use cxsom.Data.File.History.Later.{Refines}

module _ {T D : Type 0} where
  past-Represents :
      (s : State T D) (h : History D) (t : ℕ) (x : D) (f : ℕ)
      → Represents s h
      → t < h.next
      → h.next ≤ t + h.size
      → Represents
          (record s {
            disk =
                put
                  (found s t)
                  (record { flag = 1; content = x })
                  (put (found s t) (record { flag = f; content = x }) s.disk);
          })
          (record h { value = λ u. if u == t then some x else h.value u })
  unfolding put
  past-Represents s h t x f r a b =
      let g = r.ring (omega arith) (omega arith) in
      record {
        realized = r.realized;
        synced = r.synced;
        size_eq = r.size_eq;
        size_bound = r.size_bound;
        date_bound = r.date_bound;
        next_eq = r.next_eq;
        ring = λ y w. record {
          bound = g.bound;
          partial = g.partial;
          full = g.full;
          there = λ q m n. omega (arith, g.there q m n);
        };
        slots = λ u m n. ground (
          arith,
          r.slots u m n,
          found-eq s h t r a b,
          place-inj h.size s.file.header.next_free_pos (h.next - 1 - u) (h.next - 1 - t) g.bound,
        );
        future = λ u m. ground (arith, r.future u m);
      }

  past-forgotten :
      (s : State T D) (h : History D) (t : ℕ) (x : D)
      → Represents s h
      → t + h.size < h.next
      → write_past t x s ≡ inr (FileAvailability.forgotten, s)
  unfolding write_past
  past-forgotten s h t x r a = ground (arith, back-eq s h t r, r.size_eq)

  past-ready :
      (s : State T D) (h : History D) (t : ℕ) (x y : D)
      → Represents s h
      → t < h.next
      → h.next ≤ t + h.size
      → h.value t ≡ some y
      → write_past t x s ≡ inr (FileAvailability.ready, s)
  unfolding write_past
  past-ready s h t x y r a b e =
      ground (arith, back-eq s h t r, r.size_eq, found-there s h t r, found-content s h t r)

  past-busy :
      (s : State T D) (h : History D) (t : ℕ) (x : D)
      → Represents s h
      → t < h.next
      → h.next ≤ t + h.size
      → h.value t ≡ none
      → write_past t x s
        ≡ inr (
          FileAvailability.busy,
          record s {
            disk =
                put
                  (found s t)
                  (record { flag = 1; content = x })
                  (put
                    (found s t)
                    (record { flag = (s.disk.slot (found s t)).flag; content = x })
                    s.disk);
          },
        )
  unfolding write_past
  past-busy s h t x r a b e =
      ground (arith, back-eq s h t r, r.size_eq, found-there s h t r, found-content s h t r)

  pub past-Refines :
      (s : State T D) (h : History D) (t : ℕ) (x : D)
      → Represents s h
      → 0 < h.size
      → t < h.next
      → Refines (write_past t x s) (History.write t x h)
  unfolding History.write
  past-Refines s h t x r z a = elim (Bool-cases (ltb (t + h.size) h.next)) [
    | inl e ↦ ground (arith, past-forgotten s h t x r)
    | inr e ↦ elim (Option-cases (h.value t)) [
      | inl o ↦ ground (
        arith,
        past-busy s h t x r a (ground arith) o,
        past-Represents s h t x (s.disk.slot (found s t)).flag r a (ground arith),
      )
      | inr (y, o) ↦ ground (arith, past-ready s h t x y r a (ground arith) o)
    ]
  ]
