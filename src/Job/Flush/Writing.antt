-- ===== src/Job/Flush/Writing.antt =====
-- cxsom/src/cxsomJobs.hpp: jobs run while the centre is in the scope of the writer.
use cxsom.Prelude.{
  ℕ, suc, ◌+◌, ◌%◌, ◌<◌, ◌≤◌, ◌≡◌, refl, ap, Bool, true, false, ◌||◌, Option, none, some, ◌>>=◌,
  List, [], ◌∷◌, ◌++◌, is_empty, length, arith, ◌⊎◌, inl, inr, length-append, length-append, ◌∙◌,
}
use cxsom.Symbol.{Variable}
use cxsom.Job.Center.{Steps}
use cxsom.Job.Flush.{
  Call, Jobs, uint, ask_center, ask_steps, ask_patterns, end_flushing, start_flushing, take_one,
  get_one, job_ends, clear,
}
use cxsom.Job.Flush.Life.{Life, born, Step, Reach, takes, waits, ends, changes, clears, here, next}

-- Whether the scope is entered after the calls; none if it is entered twice or left from outside.
abbrev pub turn : Call → Bool → Option Bool
turn Call.enter false = some true
turn Call.enter true = none
turn Call.leave true = some false
turn Call.leave false = none

abbrev pub inside : List Call → Option Bool
inside [] = some false
inside (c ∷ earlier) = inside earlier >>= turn c

List-cases : {A : Type 0} (xs : List A) → (xs ≡ []) ⊎ ((y : A) × (ys : List A) × (xs ≡ y ∷ ys))
List-cases [] = inl refl
List-cases (x ∷ xs) = inr (x, xs, refl)

or_true : (a : Bool) {b : Bool} → b ≡ true → (a || b) ≡ true
or_true true e = refl
or_true false e = e

module _ {P S J : Type 0} (steps : Steps P S) (history_length : Variable → ℕ)
    (get_jobs : S → S × List J) (workers : ℕ) where
  -- The calls alternate, and the scope is entered while jobs run.
  record Inv (l : Life P S J) : Type 0 where
    entered : inside l.jobs.calls ≡ some l.jobs.flushing
    counted : l.jobs.nb_ongoing_processes ≡ length l.running % uint
    writing : (is_empty l.running || l.jobs.flushing) ≡ true
    bounded : length l.running ≤ workers

  -- The questions change the centre and the tasks.
  asked :
      (r : Jobs P S J)
      → let a =
          ask_patterns steps history_length get_jobs (ask_steps steps history_length get_jobs r) in
        (a.nb_ongoing_processes ≡ r.nb_ongoing_processes)
        × (a.flushing ≡ r.flushing)
        × (a.calls ≡ r.calls)
  unfolding ask_patterns ask_steps ask_center
  asked r = ground arith

  start_flushing-state :
      (r : Jobs P S J)
      → inside r.calls ≡ some r.flushing
      → (r.nb_ongoing_processes ≡ 0) ⊎ (r.flushing ≡ true)
      → let r' = start_flushing steps history_length get_jobs r in
        (r'.nb_ongoing_processes ≡ (r.nb_ongoing_processes + 1) % uint)
        × (r'.flushing ≡ true)
        × (inside r'.calls ≡ some true)
  unfolding start_flushing
  start_flushing-state r h f = ground arith

  end_flushing-state :
      (r : Jobs P S J)
      → inside r.calls ≡ some r.flushing
      → let r' = end_flushing steps history_length get_jobs r in
        (r'.nb_ongoing_processes ≡ r.nb_ongoing_processes)
        × (inside r'.calls ≡ some r'.flushing)
        × ((r.nb_ongoing_processes ≡ 0) ⊎ (r'.flushing ≡ r.flushing))
  unfolding end_flushing
  end_flushing-state r h = ground arith

  get_one-some :
      (r : Jobs P S J) (j : J) (r' : Jobs P S J)
      → get_one steps history_length get_jobs r ≡ (some j, r')
      → inside r.calls ≡ some r.flushing
      → (r.nb_ongoing_processes ≡ 0) ⊎ (r.flushing ≡ true)
      → (r'.nb_ongoing_processes ≡ (r.nb_ongoing_processes + 1) % uint)
        × (r'.flushing ≡ true)
        × (inside r'.calls ≡ some true)
  unfolding get_one take_one
  get_one-some r j r' e h f =
      let a =
        ask_patterns steps history_length get_jobs (ask_steps steps history_length get_jobs r) in
      let (n, g, c) = asked r in
      let s = start_flushing-state a (rw (c, g) h) (rw (n, g) f) in
      elim (List-cases a.tasks) [ inl q ↦ ground arith | inr (t, ts, q) ↦ ground (arith, s) ]

  get_one-none :
      (r r' : Jobs P S J)
      → get_one steps history_length get_jobs r ≡ (none, r')
      → inside r.calls ≡ some r.flushing
      → (r'.nb_ongoing_processes ≡ r.nb_ongoing_processes)
        × (inside r'.calls ≡ some r'.flushing)
        × ((r.nb_ongoing_processes ≡ 0) ⊎ (r'.flushing ≡ r.flushing))
  unfolding get_one take_one
  get_one-none r r' e h =
      let a =
        ask_patterns steps history_length get_jobs (ask_steps steps history_length get_jobs r) in
      let (n, g, c) = asked r in
      let s = end_flushing-state a (rw (c, g) h) in
      elim (List-cases a.tasks) [ inl q ↦ ground (arith, s) | inr (t, ts, q) ↦ ground arith ]

  -- A time when nothing is being run or flushed.
  quiet-or : (l : Life P S J) → Inv l → (l.jobs.nb_ongoing_processes ≡ 0) ⊎ (l.jobs.flushing ≡ true)
  quiet-or l v = elim (List-cases l.running) [
    | inl q ↦ inl (v.counted ∙ ap (λ xs. length xs % uint) q)
    | inr (t, ts, q) ↦ inr (let w = v.writing in ground arith)
  ]

  Inv-takes :
      (l : Life P S J) (j : J) (r : Jobs P S J)
      → workers < uint
      → length l.running < workers
      → get_one steps history_length get_jobs l.jobs ≡ (some j, r)
      → Inv l
      → Inv (record { jobs = r; running = j ∷ l.running })
  Inv-takes l j r b m e v =
      let (n, f, c) = get_one-some l.jobs j r e v.entered (quiet-or l v) in
      record {
        entered = rw f c;
        counted = let k = v.counted in omega (arith, n, k, m, b);
        writing = rw f refl;
        bounded = m;
      }

  Inv-waits :
      (l : Life P S J) (r : Jobs P S J)
      → workers < uint
      → get_one steps history_length get_jobs l.jobs ≡ (none, r)
      → Inv l
      → Inv (record l { jobs = r })
  Inv-waits l r b e v =
      let (n, c, f) = get_one-none l.jobs r e v.entered in
      record {
        entered = c;
        counted = n ∙ v.counted;
        writing = elim (List-cases l.running) [
          | inl q ↦ ground arith
          | inr (t, ts, q) ↦
              let k = v.counted in let m = v.bounded in let w = v.writing in ground arith
        ];
        bounded = v.bounded;
      }

  Inv-ends :
      (l : Life P S J) (before : List J) (j : J) (rest : List J)
      → workers < uint
      → l.running ≡ before ++ j ∷ rest
      → Inv l
      → Inv (record {
        jobs = job_ends steps history_length get_jobs l.jobs;
        running = before ++ rest;
      })
  unfolding job_ends
  Inv-ends l before j rest b e v =
      let k = v.counted in
      let m = v.bounded in
      let w = v.writing in
      let n : length l.running ≡ length before + suc (length rest) =
        ap length e ∙ length-append before (j ∷ rest) in
      let o = length-append before rest in
      record {
        entered = v.entered;
        counted = omega (arith, k, m, n, o, b);
        writing = elim (List-cases l.running) [
          | inl q ↦ let z = ap length q in ground (arith, n, z)
          | inr (t, ts, q) ↦
              let f : l.jobs.flushing ≡ true = ground (arith, w, q) in
              or_true (is_empty (before ++ rest)) f
        ];
        bounded = omega (arith, m, n, o);
      }

  Step-Inv :
      {l m : Life P S J}
      → workers < uint
      → Step steps history_length get_jobs workers l m
      → Inv l
      → Inv m
  unfolding clear
  Step-Inv b (takes l j r m e) v = Inv-takes l j r b m e v
  Step-Inv b (waits l r e) v = Inv-waits l r b e v
  Step-Inv b (ends l before j rest e) v = Inv-ends l before j rest b e v
  Step-Inv b (changes l c) v = record {
    entered = v.entered;
    counted = v.counted;
    writing = v.writing;
    bounded = v.bounded;
  }
  Step-Inv b (clears l) v = record {
    entered = v.entered;
    counted = v.counted;
    writing = v.writing;
    bounded = v.bounded;
  }

  Reach-Inv :
      {l : Life P S J} → workers < uint → Reach steps history_length get_jobs workers born l → Inv l
  Reach-Inv b here = record {
    entered = refl;
    counted = omega arith;
    writing = refl;
    bounded = omega arith;
  }
  Reach-Inv b (next r s) = Step-Inv b s (Reach-Inv b r)

  -- With less than 2^32 workers, at every moment: the scope of the writer was entered and left in turn, it
  -- is entered exactly if tasks are being flushed, and no job runs outside it.
  pub inside-Reach :
      (l : Life P S J)
      → workers < uint
      → Reach steps history_length get_jobs workers born l
      → (inside l.jobs.calls ≡ some l.jobs.flushing)
        × ((is_empty l.running || l.jobs.flushing) ≡ true)
  inside-Reach l b r = let v = Reach-Inv b r in (v.entered, v.writing)
