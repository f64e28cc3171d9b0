-- ===== src/Data/File/History/Sharing.antt =====
-- cxsom/src/cxsomVariable.hpp, the class `File`: `realize` and `sync` in a file that others write too.
use cxsom.Prelude.{
  ℕ, ◌+◌, ◌≤◌, ◌<◌, ◌≡◌, ◌⊎◌, ◌↔◌, inl, inr, arith, refl, sym, subst, Bool, true, Eq, word, Option,
  none, some, add64, sub64,
}
use cxsom.Data.File.{State, File, Disk, FileError, realize, next_time, time_range}
use cxsom.Data.File.Access.{sync}
use cxsom.Data.File.History.{History, Represents, is_kept}

module _ {T D : Type 0} where
  -- The results of `sync` and of `realize` that leave a file that holds a history.
  abbrev pub Syncs : FileError ⊎ State T D → History D → Type 0
  Syncs (inl e) h = ⊥
  Syncs (inr s) h = Represents s h

  abbrev pub Realizes : Option FileError × File T × Option (Disk T D) → History D → Type 0
  Realizes (none, f, some d) h = Represents (record { file = f; disk = d }) h
  Realizes _ h = ⊥

  refreshed :
      (s : State T D) (h : History D) (ty : Option T) (b : Bool) (cache : ℕ)
      → Represents s h
      → b ≡ true
      → Represents
          (record {
            file = record {
              type = ty;
              header = record s.disk.header { cache_size = cache };
              realized = b;
            };
            disk = record s.disk { header = record s.disk.header { cache_size = cache } };
          })
          h
  refreshed s h ty b cache r e =
      subst
        (λ hd.
          Represents
            (record {
              file = record { type = ty; header = record hd { cache_size = cache }; realized = b };
              disk = record s.disk { header = record hd { cache_size = cache } };
            })
            h)
        (sym r.synced)
        (record {
          realized = e;
          synced = refl;
          size_eq = r.size_eq;
          size_bound = r.size_bound;
          date_bound = r.date_bound;
          next_eq = r.next_eq;
          ring = r.ring;
          slots = r.slots;
          future = r.future;
        })

  -- What others have written is seen after `sync`: for a realized object whatever its numbers are,
  -- over the disk of a file that holds a history, `sync` leaves a file that holds this history.
  pub sync-Represents :
      (s : State T D) (h : History D) (f : File T)
      → Represents s h
      → f.realized ≡ true
      → Syncs (sync (record { file = f; disk = s.disk })) h
  unfolding sync
  sync-Represents s h f r e =
      ground (arith, refreshed s h f.type f.realized s.disk.header.cache_size r e)

  -- `get_next_time` is the first date beyond the writings.
  pub next_time-Represents :
      (s : State T D) (h : History D) → Represents s h → next_time s.file.header ≡ h.next
  unfolding add64
  next_time-Represents s h r = ground (arith, r.next_eq, r.date_bound)

  -- In a file that holds a history, with at least one slot and after a first writing, the dates
  -- that are kept are those between the two of the time range.
  pub time_range-Represents :
      (s : State T D) (h : History D) (t : ℕ)
      → Represents s h
      → 0 < h.size
      → 0 < h.next
      → (is_kept t h ≡ true)
        ↔ (((time_range s.file.header).0 ≤ t) × (t ≤ (time_range s.file.header).1))
  unfolding add64 sub64
  time_range-Represents s h t r z a = ground (arith, r.next_eq, r.date_bound, r.size_eq)

module _ {T D : Type 0} ⦃e : Eq T⦄ where
  -- A file that exists is found as it was left: over the disk of a file that holds a history, and
  -- from an object in any state, `realize` succeeds and leaves a file that holds this history,
  -- whatever sizes are asked for, if no type or the type of the disk is asked for.
  pub realize-existing :
      (zeros : D) (type : Option T) (cache size : Option ℕ) (f : File T) (s : State T D)
      (h : History D)
      → Represents s h
      → (type ≡ none) ⊎ (type ≡ some s.disk.type)
      → Realizes (realize zeros type cache size f (some s.disk)) h
  unfolding realize
  realize-existing zeros none none size f s h r o =
      refreshed s h (some s.disk.type) true s.disk.header.cache_size r refl
  realize-existing zeros none (some c) size f s h r o =
      refreshed s h (some s.disk.type) true c r refl
  realize-existing zeros (some t) none size f s h r o = ground (
    arith,
    e.beq_iff s.disk.type t,
    refreshed s h (some s.disk.type) true s.disk.header.cache_size r refl,
  )
  realize-existing zeros (some t) (some c) size f s h r o =
      ground (arith, e.beq_iff s.disk.type t, refreshed s h (some s.disk.type) true c r refl)

  -- A file that is created, with a type, a cache size and a number of slots that is less than
  -- 2^63, holds the empty history with this number of dates kept.
  pub realize-created :
      (zeros : D) (t : T) (c n : ℕ) (f : File T)
      → n + n < word
      → Realizes
          (realize zeros (some t) (some c) (some n) f none)
          (record { size = n; next = 0; value = λ u. none })
  unfolding realize
  realize-created zeros t c n f b = record {
    realized = refl;
    synced = refl;
    size_eq = refl;
    size_bound = b;
    date_bound = omega arith;
    next_eq = ground arith;
    ring = λ y w. omega arith;
    slots = λ u m k. ground arith;
    future = λ u m. refl;
  }
