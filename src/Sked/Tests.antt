-- ===== src/Sked/Tests.antt =====
-- A writer that works, threads whose waits end too early, and a writer whose end the main thread misses.
use cxsom.Prelude.{
  ℕ, ◌≡◌, refl, Bool, true, false, inl, ◌+◌, ◌%◌, if◌then◌else◌, [], ◌∷◌, List, arith, ◌=?◌,
}
use cxsom.Sked.{
  Side, Queue, uint, back, Phase, Thread, Main, State, resize, notify_main, begin_flush, test_size,
  lock_exec, unlock_exec, queue_Eq,
}
use cxsom.Sked.Life.{
  moved, made, Reach, arrives, asks, sleeps, starts, ends, dones, flushes, tests_size, goes_to_wait,
  wakes, here, next,
}
use cxsom.Sked.Exclusion.{working-only}

abbrev writers : Queue
writers = record { side = Side.writer; is_b = true }

abbrev only : Phase → List Thread
only p = record { queue = writers; phase = p } ∷ []

-- The state after each step of a writer, and of the main thread.
abbrev s1 : State
s1 = moved made (only Phase.chosen)

abbrev s2 : State
s2 = moved s1 (only Phase.asking)

abbrev s3 : State
s3 = moved (resize writers 1 s2) (only Phase.waiting)

abbrev s4 : State
s4 = begin_flush Side.writer (record s3 { found = false })

abbrev s5 : State
s5 = record s4 { found = true; main = Main.notified writers; threads = only Phase.awake }

abbrev s6 : State
s6 = moved (lock_exec Side.writer s5) (only Phase.working)

Reach-s3 : {b : Bool} → Reach b made s3
unfolding notify_main
Reach-s3 =
    next (next (next here (arrives made Side.writer (omega arith))) (asks s1 [] writers [] refl))
      (sleeps s2 [] writers [] refl)

Reach-s6 : {b : Bool} → Reach b made s6
unfolding notify_main test_size lock_exec
Reach-s6 =
    next (next (next Reach-s3 (flushes s3 refl)) (tests_size s4 writers refl))
      (starts s5 [] writers [] refl refl)

-- While the writer works, another thread comes, and its wait ends without a notification.
abbrev joined : Side → Phase → List Thread
joined side p = record { queue = back side s6; phase = p } ∷ only Phase.working

abbrev came : Side → State
came side = moved s6 (joined side Phase.chosen)

abbrev asked : Side → State
asked side = moved s6 (joined side Phase.asking)

abbrev slept : Side → State
slept side =
    moved (resize (back side s6) ((s6.size (back side s6) + 1) % uint) s6)
      (joined side Phase.waiting)

abbrev woken : Side → State
woken side = moved (slept side) (joined side Phase.awake)

Reach-woken : (side : Side) → Reach true made (woken side)
unfolding notify_main lock_exec
Reach-woken side =
    next
      (next
        (next (next Reach-s6 (arrives s6 side (omega arith)))
          (asks (came side) [] (back side s6) (only Phase.working) refl))
        (sleeps (asked side) [] (back side s6) (only Phase.working) refl))
      (wakes (slept side) [] (back side s6) (only Phase.working) refl refl)

-- A second writer is kept from its job.
working-only_example : ◌≡◌ {A = ℕ} 1 1
unfolding lock_exec
working-only_example =
    working-only true (woken Side.writer) 1 1 (record { queue = writers; phase = Phase.working })
      (record { queue = writers; phase = Phase.working }) (Reach-woken Side.writer) refl refl refl
      refl refl (inl refl)

-- A reader is not: it works while the writer does.
Reach-beside : Reach true made (moved (woken Side.reader) (joined Side.reader Phase.working))
unfolding lock_exec
Reach-beside =
    next (Reach-woken Side.reader)
      (starts (woken Side.reader) [] (back Side.reader s6) (only Phase.working) refl refl)

-- The writer is done after `notify_all` and before the main thread waits for `check_activity`: nobody is
-- left, and the main thread waits in the flush of a queue whose size is 0.
abbrev s7 : State
s7 = moved (unlock_exec Side.writer s6) (only Phase.leaving)

abbrev lost : State
lost = record s7 {
  size = λ q. if writers =? q then 0 else s7.size q;
  main = Main.waits writers;
  threads = [];
}

Reach-lost : Reach false made lost
unfolding notify_main lock_exec unlock_exec
Reach-lost =
    next (next (next Reach-s6 (ends s6 [] writers [] refl)) (dones s7 [] writers [] refl))
      (goes_to_wait (record lost { main = Main.notified writers }) writers refl)
