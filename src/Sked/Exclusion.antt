-- ===== src/Sked/Exclusion.antt =====
-- sked/src/skedQueue.hpp and sked/src/skedXRSW.hpp: who may work at the same time.
use cxsom.Prelude.{
  ℕ, zero, suc, ◌<◌, ◌≤◌, ◌≡◌, refl, sym, ap, subst, ◌∙◌, Bool, true, false, not, ◌⊎◌, inl, inr,
  List, [], ◌∷◌, count, All, All-get_elem?, get_elem?, some, arith,
}
use cxsom.Sked.{Side, Queue, Phase, Thread, Main, State, queue_Eq, queue_eq_iff}
use cxsom.Sked.Life.{
  made, Step, Reach, arrives, asks, sleeps, starts, ends, dones, flushes, tests_size, goes_to_wait,
  stirs, wakes, here, next,
}
use cxsom.Sked.Invariant.{Inv, is_right, holds, is_active, is_flushing}
use cxsom.Sked.Keeping.{Inv-asks, Inv-sleeps, Inv-starts, Inv-ends}
use cxsom.Sked.Locking.{Reach-IsLocked}
use cxsom.Sked.Flushing.{
  Inv-arrives, Inv-dones, Inv-test, Inv-flushes, Inv-waits, Inv-stirs, still_outside,
}

-- Without spurious ends of the waits of the threads.
Step-Inv : {s s' : State} → Step false s s' → Inv s → Inv s'
Step-Inv (arrives s side h) v = Inv-arrives s side h v
Step-Inv (asks s before q rest e) v = Inv-asks s before q rest e v
Step-Inv (sleeps s before q rest e) v = Inv-sleeps s before q rest e v
Step-Inv (starts s before q rest e h) v = Inv-starts s before q rest e h v
Step-Inv (ends s before q rest e) v = Inv-ends s before q rest e v
Step-Inv (dones s before q rest e) v = Inv-dones s before q rest e v
Step-Inv (flushes s e) v = Inv-flushes s e v
Step-Inv (tests_size s q e) v = Inv-test s q e v
Step-Inv (goes_to_wait s q e) v = Inv-waits s q e v
Step-Inv (stirs s q e) v = Inv-stirs s q e v
Step-Inv (wakes s before q rest b e) v = absurd (ground (arith, b))

Reach-Inv : {s : State} → Reach false made s → Inv s
Reach-Inv here = record { fewer = omega arith; counted = λ q. refl; right = tt; locked = refl }
Reach-Inv (next r st) = Step-Inv st (Reach-Inv r)

-- The only one of a list that passes a test.
count-get :
    (p : Thread → Bool) (ts : List Thread) (i : ℕ) (t : Thread)
    → get_elem? ts i ≡ some t
    → p t ≡ true
    → 0 < count p ts
count-get p [] i t e h = ground arith
count-get p (u ∷ ts) zero t e h = ground (arith, e, h)
count-get p (u ∷ ts) (suc i) t e h = ground (arith, count-get p ts i t e h)

only_one :
    (p : Thread → Bool) (ts : List Thread) (i j : ℕ) (t u : Thread)
    → count p ts ≤ 1
    → get_elem? ts i ≡ some t
    → p t ≡ true
    → get_elem? ts j ≡ some u
    → p u ≡ true
    → i ≡ j
only_one p [] i j t u n e h f k = ground arith
only_one p (w ∷ ts) zero zero t u n e h f k = refl
only_one p (w ∷ ts) zero (suc j) t u n e h f k = ground (arith, n, e, h, count-get p ts j u f k)
only_one p (w ∷ ts) (suc i) zero t u n e h f k = ground (arith, n, f, k, count-get p ts i t e h)
only_one p (w ∷ ts) (suc i) (suc j) t u n e h f k =
    ap suc (only_one p ts i j t u (ground (arith, n)) e h f k)

same_queue : (m : Main) (p q : Queue) → is_flushing m p ≡ true → is_flushing m q ≡ true → p ≡ q
same_queue Main.outside p q h k = ground arith
same_queue (Main.tests r) p q h k = sym ((queue_eq_iff r p).0 h) ∙ (queue_eq_iff r q).0 k
same_queue (Main.notified r) p q h k = sym ((queue_eq_iff r p).0 h) ∙ (queue_eq_iff r q).0 k
same_queue (Main.waits r) p q h k = sym ((queue_eq_iff r p).0 h) ∙ (queue_eq_iff r q).0 k

working-flushing :
    (m : Main) (t : Thread)
    → is_right m t ≡ true
    → t.phase ≡ Phase.working
    → is_flushing m t.queue ≡ true
working-flushing m t h k = ground (arith, h, k)

-- A thread that works beside a writer is in the same queue, without spurious ends of waits.
working-same :
    (s : State) (i j : ℕ) (t u : Thread)
    → Reach false made s
    → get_elem? s.threads i ≡ some t
    → t.phase ≡ Phase.working
    → get_elem? s.threads j ≡ some u
    → u.phase ≡ Phase.working
    → t.queue ≡ u.queue
working-same s i j t u r e h f k =
    let v = Reach-Inv r in
    let P : Thread → Type 0 = λ x. is_right s.main x ≡ true in
    let a = All-get_elem? P s.threads i t v.right e in
    let b = All-get_elem? P s.threads j u v.right f in
    same_queue s.main t.queue u.queue (working-flushing s.main t a h)
      (working-flushing s.main u b k)

-- Serial writers: at every moment, while a writer does its job, no other writer does one, even if the
-- waits may end without a notification. Without readers: if each wait of a thread, in `go_ahead`, ends by
-- a notification, no other thread does its job at all while a writer does.
pub working-only :
    (spurious : Bool) (s : State) (i j : ℕ) (t u : Thread)
    → Reach spurious made s
    → get_elem? s.threads i ≡ some t
    → t.phase ≡ Phase.working
    → t.queue.side ≡ Side.writer
    → get_elem? s.threads j ≡ some u
    → u.phase ≡ Phase.working
    → (u.queue.side ≡ Side.writer) ⊎ (spurious ≡ false)
    → i ≡ j
working-only spurious s i j t u r e h w f k (inl x) =
    let l = Reach-IsLocked r in
    only_one holds s.threads i j t u (ground (arith, l)) e (ground (arith, h, w)) f
      (ground (arith, k, x))
working-only spurious s i j t u r e h w f k (inr n) =
    let l = Reach-IsLocked r in
    let q = working-same s i j t u (subst (λ b. Reach b made s) n r) e h f k in
    only_one holds s.threads i j t u (ground (arith, l)) e (ground (arith, h, w)) f
      (ground (arith, k, w, q))

-- When the main thread is not in `flush`, no thread works or has been woken, if each wait of a thread
-- ends by a notification.
pub outside-still :
    (s : State)
    → Reach false made s
    → s.main ≡ Main.outside
    → All (λ t. not (is_active t.phase) ≡ true) s.threads
outside-still s r e =
    let v = Reach-Inv r in
    still_outside s.threads (subst (λ m. All (λ t. is_right m t ≡ true) s.threads) e v.right)
