-- ===== src/Data/File/History/Skipping.antt =====
-- cxsom/src/cxsomVariable.hpp, the class `File`: `write_future`, where the dates that are skipped are cleared.
use cxsom.Prelude.{
  ℕ, suc, ◌-◌, ◌+◌, ◌≤◌, ◌<◌, ◌≡◌, ◌⊎◌, inl, inr, max, arith, refl, ap, sym, subst, ◌∙◌, true,
  false, ltb, word, sub64, none, some, Bool-cases,
}
use cxsom.Data.{FileAvailability}
use cxsom.Data.File.{State, no_time}
use cxsom.Data.File.Access.{write_future, put_end, fill, skip}
use cxsom.Data.File.Access.Skip.{
  skip_pos, is_cleared, skip-pos, skip-slot, skip-free, skip-header, skip-count,
}
use cxsom.Data.File.History.{History, Represents, IsRing, place, content_of, is_kept}
use cxsom.Data.File.History.Ring.{
  after, skip_pos-bound, place-bound, place-cleared, place-kept, skip-IsRing,
}
use cxsom.Data.File.History
use cxsom.Data.File.History.Later.{Refines, later, write-later, new-Represents}

module _ {T D : Type 0} where
  -- What `skip` does to a file that holds a history.
  module _ (zeros : D) (s : State T D) (h : History D) (n : ℕ) (r : Represents s h) (z : 0 < h.size)
      (a : 0 < h.next) where
    bound : s.file.header.next_free_pos < s.file.header.file_size
    bound = omega (arith, (r.ring z a).bound, r.size_eq)

    small : s.file.header.file_size + s.file.header.file_size < word
    small = omega (arith, r.size_bound, r.size_eq)

    skipped-pos : (skip zeros n s).0 ≡ skip_pos h.size s.file.header.next_free_pos n
    skipped-pos = ground (arith, skip-pos zeros s n bound small, r.size_eq)

    skipped-free : (skip zeros n s).1 ≡ after (skip_pos h.size s.file.header.next_free_pos n) h.size
    skipped-free = ground (arith, skip-free zeros s n bound small, r.size_eq)

    widen :
        h.size < n ⊎ h.size ≤ s.file.header.next_free_pos + n
        → s.file.header.file_size < n ⊎ s.file.header.file_size ≤ s.file.header.next_free_pos + n
    widen (inl o) = inl (omega (arith, r.size_eq))
    widen (inr o) = inr (omega (arith, r.size_eq))

    skipped-IsRing :
        IsRing h.size
          (suc (h.next + n))
          (after (skip_pos h.size s.file.header.next_free_pos n) h.size)
          (max (skip zeros n s).2.count (suc (skip_pos h.size s.file.header.next_free_pos n)))
    skipped-IsRing =
        let (i, j, k) = skip-count zeros s n bound small in
        skip-IsRing h.size h.next s.file.header.next_free_pos n s.disk.count
          (skip zeros n s).2.count (r.ring z a) i (λ o. omega (arith, j (widen o), r.size_eq))
          (λ o u. k o (omega (arith, r.size_eq)))

    content-cleared :
        (q : ℕ)
        → q < h.size
        → is_cleared h.size s.file.header.next_free_pos n q ≡ true
        → content_of ((skip zeros n s).2.slot q) ≡ none
    content-cleared q b c = ground (arith, skip-slot zeros s n bound small q, r.size_eq)

    content-kept :
        (q : ℕ)
        → q < h.size
        → is_cleared h.size s.file.header.next_free_pos n q ≡ false
        → content_of ((skip zeros n s).2.slot q) ≡ content_of (s.disk.slot q)
    content-kept q b c = ground (arith, skip-slot zeros s n bound small q, r.size_eq)

    -- Where a date is that is `k` dates before the new one.
    abbrev place_new : ℕ → ℕ
    place_new k = place (after (skip_pos h.size s.file.header.next_free_pos n) h.size) k h.size

    place_new-bound : (k : ℕ) → k < h.size → place_new k < h.size
    place_new-bound k b =
        place-bound (after (skip_pos h.size s.file.header.next_free_pos n) h.size) k h.size
          skipped-IsRing.bound b

    skipped-new :
        (u : ℕ)
        → u < h.next + n
        → h.next + n < u + h.size
        → h.next ≤ u
        → content_of ((skip zeros n s).2.slot (place_new (h.next + n - u))) ≡ h.value u
    skipped-new u b c d =
        content-cleared (place_new (h.next + n - u))
          (place_new-bound (h.next + n - u) (omega arith))
          (place-cleared h.size s.file.header.next_free_pos n (h.next + n - u) (r.ring z a).bound
            (omega arith) (omega arith) (omega arith))
        ∙ sym (r.future u d)

    skipped-old :
        (u : ℕ)
        → h.next + n < u + h.size
        → u < h.next
        → content_of ((skip zeros n s).2.slot (place_new (h.next + n - u))) ≡ h.value u
    skipped-old u c d =
        let (i, j) =
          place-kept h.size s.file.header.next_free_pos n (h.next + n - u) (r.ring z a).bound
            (omega arith) (omega arith) in
        let back : h.next + n - u - n - 1 ≡ h.next - 1 - u = omega arith in
        content-kept (place_new (h.next + n - u)) (place_new-bound (h.next + n - u) (omega arith)) i
        ∙ ap (λ q. content_of (s.disk.slot q))
            (j ∙ ap (λ k. place s.file.header.next_free_pos k h.size) back)
        ∙ r.slots u d (omega arith)

    skipped-slot :
        (u : ℕ)
        → u < h.next + n
        → h.next + n < u + h.size
        → content_of ((skip zeros n s).2.slot (place_new (h.next + n - u))) ≡ h.value u
    skipped-slot u b c = elim (Bool-cases (ltb u h.next)) [
      | inl d ↦ skipped-old u c (ground arith)
      | inr d ↦ skipped-new u b c (ground arith)
    ]

    skipped-Represents :
        (x : D)
        → h.next + n < no_time
        → Represents
            (put_end
              (h.next + n)
              (skip zeros n s).1
              (fill (skip zeros n s).0 x (skip zeros n s).2)
              s)
            (later (h.next + n) (some x) h)
    skipped-Represents x b =
        let w =
          new-Represents s h (h.next + n) x (skip_pos h.size s.file.header.next_free_pos n)
            (skip zeros n s).2 r z (omega arith) b
            (skip_pos-bound h.size s.file.header.next_free_pos n (r.ring z a).bound)
            (skip-header zeros s n bound small) skipped-IsRing skipped-slot in
        let at_pos =
          subst
            (λ q.
              Represents
                (put_end (h.next + n) (after (skip_pos h.size s.file.header.next_free_pos n) h.size)
                  (fill q x (skip zeros n s).2) s)
                (later (h.next + n) (some x) h))
            (sym skipped-pos) w in
        subst
          (λ q.
            Represents (put_end (h.next + n) q (fill (skip zeros n s).0 x (skip zeros n s).2) s)
              (later (h.next + n) (some x) h))
          (sym skipped-free) at_pos

  zeros-eq :
      (s : State T D) (h : History D) (t : ℕ)
      → Represents s h
      → 0 < h.next
      → h.next ≤ t
      → t < no_time
      → sub64 (sub64 t 1) s.file.header.highest_time ≡ t - h.next
  unfolding sub64
  zeros-eq s h t r a b c = ground (arith, r.next_eq, r.date_bound)

  pub future-Refines :
      (zeros : D) (s : State T D) (h : History D) (t : ℕ) (x : D)
      → Represents s h
      → 0 < h.size
      → 0 < h.next
      → h.next ≤ t
      → t < no_time
      → Refines (inr (write_future zeros t x s)) (History.write t x h)
  unfolding write_future
  future-Refines zeros s h t x r z a b c =
      let after_next : h.next + (t - h.next) ≡ t = omega arith in
      let at_date =
        subst
          (λ u.
            Represents
              (put_end u (skip zeros (t - h.next) s).1
                (fill (skip zeros (t - h.next) s).0 x (skip zeros (t - h.next) s).2) s)
              (later u (some x) h))
          after_next (skipped-Represents zeros s h (t - h.next) r z a x (omega arith)) in
      let done : Refines (inr (write_future zeros t x s))
          (FileAvailability.busy, later t (some x) h) =
        (
          refl,
          subst
              (λ n.
                Represents
                  (put_end t (skip zeros n s).1 (fill (skip zeros n s).0 x (skip zeros n s).2) s)
                  (later t (some x) h))
              (sym (zeros-eq s h t r a b c)) at_date,
        ) in
      subst (λ o. Refines (inr (write_future zeros t x s)) o) (sym (write-later h t x z b)) done
