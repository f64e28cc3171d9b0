-- ===== src/Sked/Flushing.antt =====
-- sked/src/skedQueue.hpp and sked/src/skedXRSW.hpp: the flush, in the steps of the main thread.
use cxsom.Prelude.{
  suc, ◌+◌, ◌-◌, ◌%◌, ◌<◌, ◌≡◌, refl, sym, ap, subst, ◌∙◌, true, false, not, if_split, Bool-cases,
  inl, inr, List, [], ◌∷◌, ◌++◌, map, length, length-append, count, count-middle, All, All-map,
  All-middle, arith, ◌==◌,
}
use cxsom.Sked.{
  Side, Queue, Phase, Thread, Main, State, uint, resize, back, notify_main, wake, begin_flush,
  test_size, queue_Eq, queue_eq_iff,
}
use cxsom.Sked.Life.{moved}
use cxsom.Sked.Invariant.{Inv, is_right, is_in, holds, is_active, is_flushing, some_in, size-lt}
use cxsom.Sked.Keeping.{at, notified_right}

pub Inv-arrives :
    (s : State) (side : Side)
    → suc (length s.threads) < uint
    → Inv s
    → Inv (moved s (at (back side s) Phase.chosen ∷ s.threads))
Inv-arrives s side h v = record {
  fewer = h;
  counted = λ q. let n = v.counted q in ground (arith, n);
  right = (refl, v.right);
  locked = let l = v.locked in ground (arith, l);
}

pub Inv-dones :
    (s : State) (before : List Thread) (q : Queue) (rest : List Thread)
    → s.threads ≡ before ++ at q Phase.leaving ∷ rest
    → Inv s
    → Inv (
        moved
          (resize q ((s.size q + 4294967295) % uint) (record s { main = notify_main q s.main }))
          (before ++ rest))
Inv-dones s before q rest e v =
    let t = at q Phase.leaving in
    let (hs, _) =
      All-middle (λ u. is_right s.main u ≡ true) before t rest (subst (All _) e v.right) in
    let z = some_in s before t rest q e v (ground (arith, queue_eq_iff q q)) in
    let b = size-lt s q v in
    let n : (s.size q + 4294967295) % uint ≡ s.size q - 1 = omega (arith, z, b) in
    record {
      fewer =
          let m = v.fewer in
          omega (arith, m, ap length e, length-append before (t ∷ rest), length-append before rest);
      counted = λ p.
          let m = v.counted p in
          ground (
            arith,
            m,
            n,
            z,
            ap (count (is_in p)) e,
            count-middle (is_in p) before t rest,
            queue_eq_iff q p,
          );
      right = All-map (notified_right q s.main) (before ++ rest) hs;
      locked =
          let l = v.locked in
          ground (arith, l, ap (count holds) e, count-middle holds before t rest);
    }

-- No thread is active when its queue is empty, and that of another queue is not flushed.
all_still :
    (m : Main) (q : Queue) (ts : List Thread)
    → ((p : Queue) → is_flushing m p ≡ true → p ≡ q)
    → count (is_in q) ts ≡ 0
    → All (λ t. is_right m t ≡ true) ts
    → All (λ t. not (is_active t.phase) ≡ true) ts
all_still m q [] f n h = tt
all_still m q (t ∷ ts) f n h = (
  elim (Bool-cases (is_active t.phase)) [
    | inr e ↦ rw e refl
    | inl e ↦
        let p = f t.queue (let r = h.0 in ground (arith, r, e)) in
        ground (arith, n, p, e, queue_eq_iff t.queue q)
  ],
  all_still m q ts f (ground (arith, n)) h.1,
)

pub still_outside :
    (ts : List Thread)
    → All (λ t. is_right Main.outside t ≡ true) ts
    → All (λ t. not (is_active t.phase) ≡ true) ts
still_outside ts h = All-map (λ t r. ground (arith, r)) ts h

still_right :
    (m : Main) (ts : List Thread)
    → All (λ t. not (is_active t.phase) ≡ true) ts
    → All (λ t. is_right m t ≡ true) ts
still_right m ts h = All-map (λ t r. rw r refl) ts h

-- `notify_all` changes no count.
pub count-wake :
    (p : Queue) (q : Queue) (ts : List Thread)
    → (count (is_in p) (map (wake q) ts) ≡ count (is_in p) ts)
      × (count holds (map (wake q) ts) ≡ count holds ts)
      × (length (map (wake q) ts) ≡ length ts)
count-wake p q [] = (refl, refl, refl)
count-wake p q (t ∷ ts) =
    let (a, b, c) = count-wake p q ts in (ground (arith, a), ground (arith, b), ground (arith, c))

wake-right :
    (q : Queue) (ts : List Thread)
    → All (λ t. is_right (Main.tests q) t ≡ true) ts
    → All (λ t. is_right (Main.notified q) t ≡ true) (map (wake q) ts)
wake-right q [] h = tt
wake-right q (t ∷ ts) h = (
  let r = h.0 in ground (arith, r, queue_eq_iff t.queue q, queue_eq_iff q t.queue),
  wake-right q ts h.1,
)

pub Inv-test : (s : State) (q : Queue) → s.main ≡ Main.tests q → Inv s → Inv (test_size q s)
unfolding test_size
Inv-test s q e v =
    let r : All (λ t. is_right (Main.tests q) t ≡ true) s.threads =
      subst (λ m. All (λ t. is_right m t ≡ true) s.threads) e v.right in
    if_split Inv (s.size q == 0)
      (λ z.
        let n = v.counted q in
        let still =
          all_still (Main.tests q) q s.threads (λ p f. sym ((queue_eq_iff q p).0 f))
            (ground (arith, n, z)) r in
        elim q.side
          as (λ side. Inv (elim side [
            | Side.writer ↦ begin_flush Side.reader s
            | Side.reader ↦ record s { main = Main.outside }
          ])) [
            | Side.writer ↦ record {
              fewer = v.fewer;
              counted = v.counted;
              right = still_right (Main.tests (back Side.reader s)) s.threads still;
              locked = v.locked;
            }
            | Side.reader ↦ record {
              fewer = v.fewer;
              counted = v.counted;
              right = still_right Main.outside s.threads still;
              locked = v.locked;
            }
          ])
      (λ z. record {
        fewer = let m = v.fewer in let (_, _, c) = count-wake q q s.threads in rw c m;
        counted = λ p. let n = v.counted p in let (c, _, _) = count-wake p q s.threads in n ∙ sym c;
        right = wake-right q s.threads r;
        locked = let l = v.locked in let (_, c, _) = count-wake q q s.threads in c ∙ l;
      })

pub Inv-flushes :
    (s : State)
    → s.main ≡ Main.outside
    → Inv s
    → Inv (begin_flush Side.writer (record s { found = false }))
Inv-flushes s e v =
    let still =
      still_outside s.threads (subst (λ m. All (λ t. is_right m t ≡ true) s.threads) e v.right) in
    record {
      fewer = v.fewer;
      counted = v.counted;
      right = still_right (Main.tests (back Side.writer s)) s.threads still;
      locked = v.locked;
    }

pub Inv-stirs :
    (s : State) (q : Queue) → s.main ≡ Main.waits q → Inv s → Inv (record s { main = Main.tests q })
Inv-stirs s q e v = record {
  fewer = v.fewer;
  counted = v.counted;
  right = subst (λ m. All (λ t. is_right m t ≡ true) s.threads) e v.right;
  locked = v.locked;
}

pub Inv-waits :
    (s : State) (q : Queue)
    → s.main ≡ Main.notified q
    → Inv s
    → Inv (record s { main = Main.waits q })
Inv-waits s q e v = record {
  fewer = v.fewer;
  counted = v.counted;
  right = subst (λ m. All (λ t. is_right m t ≡ true) s.threads) e v.right;
  locked = v.locked;
}
