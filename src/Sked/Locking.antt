-- ===== src/Sked/Locking.antt =====
-- sked/src/skedXRSW.hpp: `exec_mutex` is locked while one writer works, however the waits end.
use cxsom.Prelude.{
  ◌+◌, ◌≡◌, refl, ap, ◌∙◌, Bool, false, if◌then◌else◌, List, ◌∷◌, ◌++◌, count, count-middle,
  if_split, arith, ◌==◌,
}
use cxsom.Sked.{
  Side, Queue, Phase, Thread, Main, State, notify_main, test_size, begin_flush, lock_exec,
  unlock_exec, is_held,
}
use cxsom.Sked.Life.{
  moved, made, Step, Reach, arrives, asks, sleeps, starts, ends, dones, flushes, tests_size,
  goes_to_wait, stirs, wakes, here, next,
}
use cxsom.Sked.Invariant.{holds}
use cxsom.Sked.Keeping.{at}
use cxsom.Sked.Flushing.{count-wake}

abbrev pub IsLocked : State → Type 0
IsLocked s = count holds s.threads ≡ (if s.exec_locked then 1 else 0)

-- One thread moves from a phase to another.
IsLocked-moves :
    (s s' : State) (before : List Thread) (t t' : Thread) (rest : List Thread)
    → s.threads ≡ before ++ t ∷ rest
    → IsLocked s
    → (if s'.exec_locked then 1 else 0) + (if holds t then 1 else 0)
      ≡ (if s.exec_locked then 1 else 0) + (if holds t' then 1 else 0)
    → IsLocked (moved s' (before ++ t' ∷ rest))
IsLocked-moves s s' before t t' rest e v l = omega (
  arith,
  v,
  l,
  ap (count holds) e,
  count-middle holds before t rest,
  count-middle holds before t' rest,
)

IsLocked-starts :
    (s : State) (before : List Thread) (q : Queue) (rest : List Thread)
    → s.threads ≡ before ++ at q Phase.awake ∷ rest
    → is_held q.side s ≡ false
    → IsLocked s
    → IsLocked (moved (lock_exec q.side s) (before ++ at q Phase.working ∷ rest))
unfolding lock_exec
IsLocked-starts s before q rest e h v =
    IsLocked-moves s (lock_exec q.side s) before (at q Phase.awake) (at q Phase.working) rest e v
      (ground (arith, h))

IsLocked-ends :
    (s : State) (before : List Thread) (q : Queue) (rest : List Thread)
    → s.threads ≡ before ++ at q Phase.working ∷ rest
    → IsLocked s
    → IsLocked (moved (unlock_exec q.side s) (before ++ at q Phase.leaving ∷ rest))
unfolding unlock_exec
IsLocked-ends s before q rest e v =
    let c = ap (count holds) e ∙ count-middle holds before (at q Phase.working) rest in
    IsLocked-moves s (unlock_exec q.side s) before (at q Phase.working) (at q Phase.leaving) rest e
      v (ground (arith, v, c))

IsLocked-test : (s : State) (q : Queue) → IsLocked s → IsLocked (test_size q s)
unfolding test_size
IsLocked-test s q v =
    if_split IsLocked (s.size q == 0)
      (λ z.
        elim q.side
          as (λ side. IsLocked (elim side [
            | Side.writer ↦ begin_flush Side.reader s
            | Side.reader ↦ record s { main = Main.outside }
          ])) [ Side.writer ↦ v | Side.reader ↦ v ])
      (λ z. let (_, c, _) = count-wake q q s.threads in c ∙ v)

Step-IsLocked : {spurious : Bool} {s s' : State} → Step spurious s s' → IsLocked s → IsLocked s'
Step-IsLocked (arrives s side h) v = ground (arith, v)
Step-IsLocked (asks s before q rest e) v =
    IsLocked-moves s (record s { main = notify_main q s.main }) before (at q Phase.chosen)
      (at q Phase.asking) rest e v (ground arith)
Step-IsLocked (sleeps s before q rest e) v =
    IsLocked-moves s s before (at q Phase.asking) (at q Phase.waiting) rest e v (ground arith)
Step-IsLocked (starts s before q rest e h) v = IsLocked-starts s before q rest e h v
Step-IsLocked (ends s before q rest e) v = IsLocked-ends s before q rest e v
Step-IsLocked (dones s before q rest e) v =
    ground (arith, v, ap (count holds) e, count-middle holds before (at q Phase.leaving) rest)
Step-IsLocked (flushes s e) v = v
Step-IsLocked (tests_size s q e) v = IsLocked-test s q v
Step-IsLocked (goes_to_wait s q e) v = v
Step-IsLocked (stirs s q e) v = v
Step-IsLocked (wakes s before q rest b e) v =
    IsLocked-moves s s before (at q Phase.waiting) (at q Phase.awake) rest e v (ground arith)

pub Reach-IsLocked : {spurious : Bool} {s : State} → Reach spurious made s → IsLocked s
Reach-IsLocked here = refl
Reach-IsLocked (next r st) = Step-IsLocked st (Reach-IsLocked r)
