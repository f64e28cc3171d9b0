-- ===== src/Data/File/History/Later.antt =====
-- cxsom/src/cxsomVariable.hpp, the class `File`: a date beyond the others is added.
use cxsom.Prelude.{
  ℕ, suc, ◌-◌, ◌+◌, ◌≤◌, ◌<◌, ◌≡◌, ◌⊎◌, inl, inr, max, arith, ap, ◌∙◌, if◌then◌else◌, ◌==◌, Option,
  some,
}
use cxsom.Data.{FileAvailability}
use cxsom.Data.File.{Header, Disk, State, FileError, no_time}
use cxsom.Data.File.Access.{put, put_end, fill}
use cxsom.Data.File.History.{History, Represents, IsRing, place, content_of, is_kept}
use cxsom.Data.File.History.Ring.{after, place-after, place-ne-after}
use cxsom.Data.File.History

module _ {D : Type 0} where
  -- The history after a writing at a date beyond the others.
  abbrev pub later : ℕ → Option D → History D → History D
  later t o h = record { size = h.size; next = suc t; value = λ u. if u == t then o else h.value u }

  pub write-later :
      (h : History D) (t : ℕ) (x : D)
      → 0 < h.size
      → h.next ≤ t
      → History.write t x h ≡ (FileAvailability.busy, later t (some x) h)
  unfolding History.write
  write-later h t x z a = ground arith

module _ {T D : Type 0} where
  -- A call that succeeds, with the answer and the history that are expected.
  abbrev pub Refines :
      FileError ⊎ (FileAvailability × State T D) → FileAvailability × History D → Type 0
  Refines (inl e) o = ⊥
  Refines (inr (a, s)) (b, h) = (a ≡ b) × Represents s h

  fill-slot :
      (p : ℕ) (x : D) (d : Disk T D) (q : ℕ)
      → content_of ((fill p x d).slot q) ≡ (if q == p then some x else content_of (d.slot q))
  unfolding fill put
  fill-slot p x d q = ground arith

  -- A date beyond the others, written behind the slots that were cleared.
  pub new-Represents :
      (s : State T D) (h : History D) (t : ℕ) (x : D) (p : ℕ) (d : Disk T D)
      → Represents s h
      → 0 < h.size
      → h.next ≤ t
      → t < no_time
      → p < h.size
      → d.header ≡ s.disk.header
      → IsRing h.size (suc t) (after p h.size) (max d.count (suc p))
      → ((u : ℕ)
          → u < t
          → t < u + h.size
          → content_of (d.slot (place (after p h.size) (t - u) h.size)) ≡ h.value u)
      → Represents (put_end t (after p h.size) (fill p x d) s) (later t (some x) h)
  unfolding fill put
  new-Represents s h t x p d r z a b c e g k = record {
    realized = r.realized;
    synced =
        ap {A = Header} (λ f. record f { highest_time = t; next_free_pos = after p h.size })
          (e ∙ r.synced);
    size_eq = r.size_eq;
    size_bound = r.size_bound;
    date_bound = omega arith;
    next_eq = ground arith;
    ring = λ y w. record {
      bound = g.bound;
      partial = g.partial;
      full = g.full;
      there = λ q m n. omega (arith, g.there q m n);
    };
    slots = λ u m n. ground (
      arith,
      k u,
      fill-slot p x d (place (after p h.size) (t - u) h.size),
      place-after p h.size c,
      place-ne-after p h.size (t - u) c,
    );
    future = λ u m. ground (arith, r.future u (omega arith));
  }
