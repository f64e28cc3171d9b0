-- ===== src/Sked/Invariant.antt =====
-- sked/src/skedQueue.hpp and sked/src/skedXRSW.hpp: what holds at every moment of the queues of readers and writers,
-- if the waits of the threads end by notifications.
use cxsom.Prelude.{
  ◌+◌, ◌<◌, ◌≤◌, ◌≡◌, ap, subst, Bool, true, false, not, ◌&&◌, ◌||◌, if◌then◌else◌, List, [], ◌∷◌,
  ◌++◌, length, length-append, count, count-middle, All, All-map, All-middle, ◌=?◌, arith,
}
use cxsom.Sked.{Side, Queue, Phase, Thread, Main, State, uint, notify_main, queue_Eq}
use cxsom.Sked.Life.{moved}

-- `size` counts a thread from its wait to the end of `done`.
abbrev pub counts : Phase → Bool
counts Phase.chosen = false
counts Phase.asking = false
counts p = true

-- A thread that was woken and is not done.
abbrev pub is_active : Phase → Bool
is_active Phase.waiting = false
is_active p = counts p

abbrev pub is_in : Queue → Thread → Bool
is_in q t = t.queue =? q && counts t.phase

abbrev is_writing : Side → Phase → Bool
is_writing Side.writer Phase.working = true
is_writing s p = false

abbrev pub holds : Thread → Bool
holds t = is_writing t.queue.side t.phase

-- The main thread is in the flush of a queue.
abbrev pub is_flushing : Main → Queue → Bool
is_flushing Main.outside q = false
is_flushing (Main.tests p) q = p =? q
is_flushing (Main.notified p) q = p =? q
is_flushing (Main.waits p) q = p =? q

abbrev pub is_right : Main → Thread → Bool
is_right m t = not (is_active t.phase) || is_flushing m t.queue

pub record Inv (s : State) : Type 0 where
  pub fewer : length s.threads < uint
  pub counted : (q : Queue) → s.size q ≡ count (is_in q) s.threads
  pub right : All (λ t. is_right s.main t ≡ true) s.threads
  pub locked : count holds s.threads ≡ (if s.exec_locked then 1 else 0)

pub is_flushing-notify_main :
    (q : Queue) (m : Main) (t : Thread) → is_right (notify_main q m) t ≡ is_right m t
unfolding notify_main
is_flushing-notify_main q m t = ground arith

All-insert :
    (P : Thread → Type 0) (before : List Thread) (t : Thread) (rest : List Thread)
    → All P (before ++ rest)
    → P t
    → All P (before ++ t ∷ rest)
All-insert P [] t rest h p = (p, h)
All-insert P (b ∷ before) t rest h p = (h.0, All-insert P before t rest h.1 p)

pub count-le-length : (p : Thread → Bool) (ts : List Thread) → count p ts ≤ length ts
count-le-length p [] = omega arith
count-le-length p (t ∷ ts) = ground (arith, count-le-length p ts)

-- One thread moves from a phase to another.
pub Inv-moves :
    (s s' : State) (before : List Thread) (t t' : Thread) (rest : List Thread)
    → s.threads ≡ before ++ t ∷ rest
    → Inv s
    → ((q : Queue)
        → s'.size q + (if is_in q t then 1 else 0) ≡ s.size q + (if is_in q t' then 1 else 0))
    → ((u : Thread) → is_right s.main u ≡ true → is_right s'.main u ≡ true)
    → is_right s'.main t' ≡ true
    → (if s'.exec_locked then 1 else 0) + (if holds t then 1 else 0)
      ≡ (if s.exec_locked then 1 else 0) + (if holds t' then 1 else 0)
    → Inv (moved s' (before ++ t' ∷ rest))
Inv-moves s s' before t t' rest e v f g r l =
    let (hs, _) =
      All-middle (λ u. is_right s.main u ≡ true) before t rest (subst (All _) e v.right) in
    record {
      fewer =
          let n = v.fewer in
          omega (
            arith,
            n,
            ap length e,
            length-append before (t ∷ rest),
            length-append before (t' ∷ rest),
          );
      counted = λ q.
          let n = v.counted q in
          omega (
            arith,
            n,
            f q,
            ap (count (is_in q)) e,
            count-middle (is_in q) before t rest,
            count-middle (is_in q) before t' rest,
          );
      right =
          All-insert (λ u. is_right s'.main u ≡ true) before t' rest (All-map g (before ++ rest) hs)
            r;
      locked =
          let n = v.locked in
          omega (
            arith,
            n,
            l,
            ap (count holds) e,
            count-middle holds before t rest,
            count-middle holds before t' rest,
          );
    }

-- A thread that is counted is counted in `size`.
pub some_in :
    (s : State) (before : List Thread) (t : Thread) (rest : List Thread) (q : Queue)
    → s.threads ≡ before ++ t ∷ rest
    → Inv s
    → is_in q t ≡ true
    → 0 < s.size q
some_in s before t rest q e v h =
    let n = v.counted q in
    ground (arith, n, ap (count (is_in q)) e, count-middle (is_in q) before t rest, h)

pub size-lt : (s : State) (q : Queue) → Inv s → s.size q < uint
size-lt s q v =
    let n = v.counted q in
    let m = v.fewer in omega (arith, n, m, count-le-length (is_in q) s.threads)
