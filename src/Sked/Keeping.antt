-- ===== src/Sked/Keeping.antt =====
-- sked/src/skedQueue.hpp and sked/src/skedXRSW.hpp: the steps of the threads keep what holds of the queues.
use cxsom.Prelude.{
  suc, ◌+◌, ◌%◌, ◌≡◌, refl, ap, subst, ◌∙◌, true, false, List, ◌∷◌, ◌++◌, length, length-append,
  count, count-middle, All, All-middle, arith,
}
use cxsom.Sked.{
  Side, Queue, Phase, Thread, Main, State, uint, resize, notify_main, lock_exec, unlock_exec,
  is_held, queue_Eq, queue_eq_iff,
}
use cxsom.Sked.Life.{moved}
use cxsom.Sked.Invariant.{
  Inv, Inv-moves, is_right, is_in, holds, is_flushing-notify_main, count-le-length,
}

abbrev pub at : Queue → Phase → Thread
at q p = record { queue = q; phase = p }

pub notified_right :
    (q : Queue) (m : Main) (u : Thread) → is_right m u ≡ true → is_right (notify_main q m) u ≡ true
notified_right q m u h = is_flushing-notify_main q m u ∙ h

pub Inv-asks :
    (s : State) (before : List Thread) (q : Queue) (rest : List Thread)
    → s.threads ≡ before ++ at q Phase.chosen ∷ rest
    → Inv s
    → Inv (moved (record s { main = notify_main q s.main }) (before ++ at q Phase.asking ∷ rest))
Inv-asks s before q rest e v =
    Inv-moves s (record s { main = notify_main q s.main }) before (at q Phase.chosen)
      (at q Phase.asking) rest e v (λ p. ground arith) (notified_right q s.main) refl (ground arith)

-- There is room for one more in `size`.
size-sleeps :
    (s : State) (before : List Thread) (q : Queue) (rest : List Thread)
    → s.threads ≡ before ++ at q Phase.asking ∷ rest
    → Inv s
    → (s.size q + 1) % uint ≡ s.size q + 1
size-sleeps s before q rest e v =
    let n = v.counted q in
    let m = v.fewer in
    let k : count (is_in q) s.threads ≡ count (is_in q) (before ++ rest) =
      ap (count (is_in q)) e
      ∙ (count-middle (is_in q) before (at q Phase.asking) rest ∙ ground arith) in
    let j : length s.threads ≡ suc (length (before ++ rest)) = omega (
      arith,
      ap length e,
      length-append before (at q Phase.asking ∷ rest),
      length-append before rest,
    ) in
    omega (arith, n, m, k, j, count-le-length (is_in q) (before ++ rest))

pub Inv-sleeps :
    (s : State) (before : List Thread) (q : Queue) (rest : List Thread)
    → s.threads ≡ before ++ at q Phase.asking ∷ rest
    → Inv s
    → Inv (moved (resize q ((s.size q + 1) % uint) s) (before ++ at q Phase.waiting ∷ rest))
Inv-sleeps s before q rest e v =
    let n = size-sleeps s before q rest e v in
    Inv-moves s (resize q ((s.size q + 1) % uint) s) before (at q Phase.asking) (at q Phase.waiting)
      rest e v (λ p. ground (arith, n, queue_eq_iff q p)) (λ u h. h) refl (ground arith)

-- The main thread flushes the queue of an active thread.
right_at :
    (s : State) (before : List Thread) (t : Thread) (rest : List Thread)
    → s.threads ≡ before ++ t ∷ rest
    → Inv s
    → is_right s.main t ≡ true
right_at s before t rest e v =
    (All-middle (λ u. is_right s.main u ≡ true) before t rest (subst (All _) e v.right)).1

lock_exec-kept :
    (side : Side) (s : State)
    → ((lock_exec side s).size ≡ s.size) × ((lock_exec side s).main ≡ s.main)
unfolding lock_exec
lock_exec-kept Side.reader s = (refl, refl)
lock_exec-kept Side.writer s = (refl, refl)

unlock_exec-kept :
    (side : Side) (s : State)
    → ((unlock_exec side s).size ≡ s.size) × ((unlock_exec side s).main ≡ s.main)
unfolding unlock_exec
unlock_exec-kept Side.reader s = (refl, refl)
unlock_exec-kept Side.writer s = (refl, refl)

pub Inv-starts :
    (s : State) (before : List Thread) (q : Queue) (rest : List Thread)
    → s.threads ≡ before ++ at q Phase.awake ∷ rest
    → is_held q.side s ≡ false
    → Inv s
    → Inv (moved (lock_exec q.side s) (before ++ at q Phase.working ∷ rest))
unfolding lock_exec
Inv-starts s before q rest e h v =
    let r = right_at s before (at q Phase.awake) rest e v in
    let (z, m) = lock_exec-kept q.side s in
    Inv-moves s (lock_exec q.side s) before (at q Phase.awake) (at q Phase.working) rest e v
      (λ p. rw z refl) (λ u k. rw m k) (rw m r) (ground (arith, h))

pub Inv-ends :
    (s : State) (before : List Thread) (q : Queue) (rest : List Thread)
    → s.threads ≡ before ++ at q Phase.working ∷ rest
    → Inv s
    → Inv (moved (unlock_exec q.side s) (before ++ at q Phase.leaving ∷ rest))
unfolding unlock_exec
Inv-ends s before q rest e v =
    let r = right_at s before (at q Phase.working) rest e v in
    let (z, m) = unlock_exec-kept q.side s in
    let l = v.locked in
    let c = ap (count holds) e ∙ count-middle holds before (at q Phase.working) rest in
    Inv-moves s (unlock_exec q.side s) before (at q Phase.working) (at q Phase.leaving) rest e v
      (λ p. rw z refl) (λ u k. rw m k) (rw m r) (ground (arith, l, c))
