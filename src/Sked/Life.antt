-- ===== src/Sked/Life.antt =====
-- sked/src/skedQueue.hpp and sked/src/skedXRSW.hpp: the steps of the threads and of the main thread, in any order.
use cxsom.Prelude.{suc, ◌+◌, ◌%◌, ◌<◌, ◌≡◌, Bool, true, false, List, [], ◌∷◌, ◌++◌, length}
use cxsom.Sked.{
  Side, Queue, Phase, Thread, Main, State, uint, resize, back, notify_main, begin_flush, test_size,
  lock_exec, unlock_exec, is_held,
}

abbrev pub moved : State → List Thread → State
moved s ts = record s { threads = ts }

-- The queues when they are made.
abbrev pub made : State
made = record {
  size = λ q. 0;
  back_is_b = λ s. true;
  exec_locked = false;
  main = Main.outside;
  found = false;
  threads = [];
}

-- A wait may end without a notification, as `std::condition_variable` allows: that of the main thread at
-- any time, those of the threads only if they are `spurious`.
pub data Step (spurious : Bool) : State → State → Type 0 where
  arrives :
      (s : State) (side : Side)
      → suc (length s.threads) < uint
      → Step spurious s (moved s (record { queue = back side s; phase = Phase.chosen } ∷ s.threads))
  asks :
      (s : State) (before : List Thread) (q : Queue) (rest : List Thread)
      → s.threads ≡ before ++ record { queue = q; phase = Phase.chosen } ∷ rest
      → Step spurious s (
          moved
            (record s { main = notify_main q s.main })
            (before ++ record { queue = q; phase = Phase.asking } ∷ rest))
  sleeps :
      (s : State) (before : List Thread) (q : Queue) (rest : List Thread)
      → s.threads ≡ before ++ record { queue = q; phase = Phase.asking } ∷ rest
      → Step spurious s (
          moved
            (resize q ((s.size q + 1) % uint) s)
            (before ++ record { queue = q; phase = Phase.waiting } ∷ rest))
  starts :
      (s : State) (before : List Thread) (q : Queue) (rest : List Thread)
      → s.threads ≡ before ++ record { queue = q; phase = Phase.awake } ∷ rest
      → is_held q.side s ≡ false
      → Step spurious s (
          moved (lock_exec q.side s) (before ++ record { queue = q; phase = Phase.working } ∷ rest))
  ends :
      (s : State) (before : List Thread) (q : Queue) (rest : List Thread)
      → s.threads ≡ before ++ record { queue = q; phase = Phase.working } ∷ rest
      → Step spurious s (
          moved
            (unlock_exec q.side s)
            (before ++ record { queue = q; phase = Phase.leaving } ∷ rest))
  dones :
      (s : State) (before : List Thread) (q : Queue) (rest : List Thread)
      → s.threads ≡ before ++ record { queue = q; phase = Phase.leaving } ∷ rest
      → Step spurious s (
          moved
            (resize q ((s.size q + 4294967295) % uint) (record s { main = notify_main q s.main }))
            (before ++ rest))
  flushes :
      (s : State)
      → s.main ≡ Main.outside
      → Step spurious s (begin_flush Side.writer (record s { found = false }))
  tests_size : (s : State) (q : Queue) → s.main ≡ Main.tests q → Step spurious s (test_size q s)
  goes_to_wait :
      (s : State) (q : Queue)
      → s.main ≡ Main.notified q
      → Step spurious s (record s { main = Main.waits q })
  stirs :
      (s : State) (q : Queue)
      → s.main ≡ Main.waits q
      → Step spurious s (record s { main = Main.tests q })
  wakes :
      (s : State) (before : List Thread) (q : Queue) (rest : List Thread)
      → spurious ≡ true
      → s.threads ≡ before ++ record { queue = q; phase = Phase.waiting } ∷ rest
      → Step spurious s (moved s (before ++ record { queue = q; phase = Phase.awake } ∷ rest))

pub data Reach (spurious : Bool) (s : State) : State → Type 0 where
  here : Reach spurious s s
  next : {m n : State} → Reach spurious s m → Step spurious m n → Reach spurious s n
