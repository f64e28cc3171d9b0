-- ===== src/Data/Instance/Locks.antt =====
-- cxsom/src/cxsomVariable.hpp: how `Instance::get`, `sync` and `set` wait for each other, in steps of their threads.
-- `writing` is atomic, and `set` raises it without `write_mutex`, so that the test of `writing` and the
-- increment of `nb_readers` are two steps.
use cxsom.Prelude.{
  ℕ, suc, ◌+◌, ◌%◌, ◌<◌, ◌≡◌, refl, ap, ◌∙◌, Bool, true, false, if◌then◌else◌, List, [], ◌∷◌, ◌++◌,
  length, length-append, count, count-middle, arith,
}

-- A thread of `get` or `sync` that has seen `writing` false, and that reads; one of `set` that has raised
-- `writing`, and that writes.
pub data Phase : Type 0 where
  passed reading raised written : Phase

pub record State : Type 0 where
  pub nb_readers : ℕ
  pub writing : Bool
  pub threads : List Phase

-- 2^32, for an `unsigned int`
abbrev pub uint : ℕ
uint = 4294967296

abbrev pub free : State
free = record { nb_readers = 0; writing = false; threads = [] }

pub data Step : State → State → Type 0 where
  passes :
      (s : State)
      → s.writing ≡ false
      → suc (length s.threads) < uint
      → Step s (record s { threads = Phase.passed ∷ s.threads })
  reads :
      (s : State) (before rest : List Phase)
      → s.threads ≡ before ++ Phase.passed ∷ rest
      → Step s (record s {
        nb_readers = (s.nb_readers + 1) % uint;
        threads = before ++ Phase.reading ∷ rest;
      })
  leaves :
      (s : State) (before rest : List Phase)
      → s.threads ≡ before ++ Phase.reading ∷ rest
      → Step s
          (record s { nb_readers = (s.nb_readers + 4294967295) % uint; threads = before ++ rest })
  raises :
      (s : State)
      → suc (length s.threads) < uint
      → Step s (record s { writing = true; threads = Phase.raised ∷ s.threads })
  writes :
      (s : State) (before rest : List Phase)
      → s.threads ≡ before ++ Phase.raised ∷ rest
      → s.nb_readers ≡ 0
      → Step s (record s { threads = before ++ Phase.written ∷ rest })
  ends :
      (s : State) (before rest : List Phase)
      → s.threads ≡ before ++ Phase.written ∷ rest
      → Step s (record s { writing = false; threads = before ++ rest })

pub data Reach (s : State) : State → Type 0 where
  here : Reach s s
  next : {m n : State} → Reach s m → Step m n → Reach s n

abbrev pub is_reading : Phase → Bool
is_reading Phase.reading = true
is_reading p = false

pub record Inv (s : State) : Type 0 where
  pub fewer : length s.threads < uint
  pub counted : s.nb_readers ≡ count is_reading s.threads

count-le-length : (ts : List Phase) → count is_reading ts < suc (length ts)
count-le-length [] = omega arith
count-le-length (t ∷ ts) = ground (arith, count-le-length ts)

-- One thread among the others.
middle :
    (s : State) (before : List Phase) (p : Phase) (rest : List Phase)
    → s.threads ≡ before ++ p ∷ rest
    → (length s.threads ≡ suc (length (before ++ rest)))
      × (count is_reading s.threads
          ≡ (if is_reading p then 1 else 0) + count is_reading (before ++ rest))
middle s before p rest e = (
  omega (arith, ap length e, length-append before (p ∷ rest), length-append before rest),
  ap (count is_reading) e ∙ count-middle is_reading before p rest,
)

Step-Inv : {s s' : State} → Step s s' → Inv s → Inv s'
Step-Inv (passes s w h) v = record { fewer = h; counted = let c = v.counted in omega (arith, c) }
Step-Inv (raises s h) v = record { fewer = h; counted = let c = v.counted in omega (arith, c) }
Step-Inv (reads s before rest e) v =
    let (n, m) = middle s before Phase.passed rest e in
    let f = v.fewer in
    let c = v.counted in
    record {
      fewer =
          omega
            (arith, f, n, length-append before (Phase.reading ∷ rest), length-append before rest);
      counted = omega (
        arith,
        f,
        c,
        n,
        m,
        count-middle is_reading before Phase.reading rest,
        count-le-length (before ++ rest),
      );
    }
Step-Inv (leaves s before rest e) v =
    let (n, m) = middle s before Phase.reading rest e in
    let f = v.fewer in
    let c = v.counted in
    record {
      fewer = omega (arith, f, n);
      counted = omega (arith, f, c, n, m, count-le-length (before ++ rest));
    }
Step-Inv (writes s before rest e z) v =
    let (n, m) = middle s before Phase.raised rest e in
    let f = v.fewer in
    let c = v.counted in
    record {
      fewer =
          omega
            (arith, f, n, length-append before (Phase.written ∷ rest), length-append before rest);
      counted = omega (arith, c, m, count-middle is_reading before Phase.written rest);
    }
Step-Inv (ends s before rest e) v =
    let (n, m) = middle s before Phase.written rest e in
    let f = v.fewer in
    let c = v.counted in record { fewer = omega (arith, f, n); counted = omega (arith, c, m) }

-- `nb_readers` counts the threads that read, so that `set` begins to write when there are none.
pub locks-Inv : {s : State} → Reach free s → Inv s
locks-Inv here = record { fewer = omega arith; counted = refl }
locks-Inv (next r st) = Step-Inv st (locks-Inv r)
