-- ===== src/Sked.antt =====
-- sked/src/skedQueue.hpp and sked/src/skedXRSW.hpp: the queue of readers and writers, in steps of its threads.
-- A thread that has passed `go_ahead` works until it calls `done`; one main thread calls `flush`. A mutex that
-- is released in the same call makes this call, or the part of it that it guards, one step.
pub mod Life
pub mod Invariant
pub mod Keeping
pub mod Flushing
pub mod Locking
pub mod Exclusion
pub mod Tests
use cxsom.Prelude.{
  ℕ, ◌+◌, ◌-◌, Bool, true, false, not, ◌&&◌, if◌then◌else◌, ◌==◌, List, [], ◌∷◌, map, ◌≡◌, ◌↔◌,
  arith, Eq, ◌=?◌, refl,
}

pub data Side : Type 0 where
  reader writer : Side

-- An `ack::queue`: `queue_a` or `queue_b` of the `double_buffered::queue` of a side.
pub record Queue : Type 0 where
  pub side : Side
  pub is_b : Bool

abbrev pub same_side : Side → Side → Bool
same_side Side.reader Side.reader = true
same_side Side.writer Side.writer = true
same_side s t = false

abbrev pub queue_eq : Queue → Queue → Bool
queue_eq p q = same_side p.side q.side && (if p.is_b then q.is_b else not q.is_b)

pub queue_eq_iff : (p q : Queue) → (queue_eq p q ≡ true) ↔ (p ≡ q)
queue_eq_iff p q = ground arith

instance abbrev pub queue_Eq : Eq Queue
queue_Eq = record { beq = queue_eq; beq_iff = queue_eq_iff }

-- Where a thread is: it has read `back` (`chosen`), it has notified the main thread (`asking`), it waits for
-- `to_do`, it has been woken, it does its job, its job is over and `exec_mutex` is unlocked.
pub data Phase : Type 0 where
  chosen asking waiting awake working leaving : Phase

pub record Thread : Type 0 where
  pub queue : Queue
  pub phase : Phase

-- Where the main thread is in `xrsw::queue::flush`: outside, before the test of `size` in the flush of a
-- queue, after `notify_all`, or in the wait for `check_activity`.
pub data Main : Type 0 where
  outside : Main
  tests : Queue → Main
  notified : Queue → Main
  waits : Queue → Main

-- 2^32, for an `unsigned int`
abbrev pub uint : ℕ
uint = 4294967296

-- `size` of each queue, which queue is `back` on each side, `exec_mutex` of the writers, and what `flush`
-- has found so far.
pub record State : Type 0 where
  pub size : Queue → ℕ
  pub back_is_b : Side → Bool
  pub exec_locked : Bool
  pub main : Main
  pub found : Bool
  pub threads : List Thread

abbrev pub resize : Queue → ℕ → State → State
resize q n s = record s { size = λ p. if q =? p then n else s.size p }

-- The queue that new threads choose.
abbrev pub back : Side → State → Queue
back side s = record { side = side; is_b = s.back_is_b side }

-- `std::swap(front, back)`
abbrev pub swap : Side → State → State
swap side s = record s {
  back_is_b = λ t. if same_side side t then not (s.back_is_b t) else s.back_is_b t;
}

-- `check_activity.notify_one()` on a queue.
unfoldable pub notify_main : Queue → Main → Main
notify_main q (Main.waits p) = if p =? q then Main.tests p else Main.waits p
notify_main q m = m

-- `to_do.notify_all()` on a queue.
abbrev pub wake : Queue → Thread → Thread
wake q t = elim t.phase [
  | Phase.waiting ↦ if t.queue =? q then record t { phase = Phase.awake } else t
  | _ ↦ t
]

-- `double_buffered::queue::flush` of a side begins.
abbrev pub begin_flush : Side → State → State
begin_flush side s = record (swap side s) { main = Main.tests (back side s) }

-- The test of `size`, and what follows it: `notify_all` of a queue that is not empty; else the flush of
-- the readers after that of the writers, or the end.
unfoldable pub test_size : Queue → State → State
test_size q s =
    if s.size q == 0
    then elim q.side [
      | Side.writer ↦ begin_flush Side.reader s
      | Side.reader ↦ record s { main = Main.outside }
    ]
    else record s { found = true; main = Main.notified q; threads = map (wake q) s.threads }

-- A woken thread goes on: a writer locks `exec_mutex`.
unfoldable pub lock_exec : Side → State → State
lock_exec Side.writer s = record s { exec_locked = true }
lock_exec Side.reader s = s

unfoldable pub unlock_exec : Side → State → State
unlock_exec Side.writer s = record s { exec_locked = false }
unlock_exec Side.reader s = s

-- A thread that can not go on.
abbrev pub is_held : Side → State → Bool
is_held Side.writer s = s.exec_locked
is_held Side.reader s = false
