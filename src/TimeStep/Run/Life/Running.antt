-- ===== src/TimeStep/Run/Life/Running.antt =====
-- Counting the queued contents that a task is processing.
use text.Mathlib.TextEquality.{eq_iff}
use cxsom.Prelude.{
  ◌+◌, ◌≤◌, ◌≡◌, refl, String, Bool, true, not, ◌&&◌, some, List, [], ◌∷◌, if◌then◌else◌, arith,
  count, count-append, All, All-append, inl, inr, Bool-cases,
}
use cxsom.Symbol.{name_eq}
use cxsom.TimeStep.{
  Queue, Content, Updates, Instance, Task, init_done, settle, update_status, busy_unbounds_found,
}
use cxsom.TimeStep.Settling.{settle-Settled, settle-notified, scan_queue-found}
use cxsom.TimeStep.Totals.{total, total-busy_unbounds_found, total-settle}
use cxsom.TimeStep.Run.{
  named, var_name, remove_first, remove_where, mark, jobs_of, hand_out, requeue,
}
use cxsom.TimeStep.Run.Removal.{left, total-remove_where, total-remove_where_ne}
use cxsom.TimeStep.Run.Progress.{IsIdle}

-- A part of a list, by `remove_first`.
pub All-remove_first {κ} :
    (P : Content → Type κ) (p : Content → Bool) (cs : List Content)
    → All P cs
    → All P (left cs (remove_first p cs))
unfolding remove_first
All-remove_first P p [] h = h
All-remove_first P p (c ∷ cs) h = ground (arith, All-remove_first P p cs h.1)

count-idle :
    (p : Content → Bool) (cs : List Content)
    → All IsIdle cs
    → count (λ c. p c && not c.no_processing) cs ≡ 0
count-idle p [] h = refl
count-idle p (c ∷ cs) h = ground (arith, count-idle p cs h.1)

count-and-le : (p q : Content → Bool) (cs : List Content) → count (λ c. p c && q c) cs ≤ count p cs
count-and-le p q [] = omega arith
count-and-le p q (c ∷ cs) = ground (arith, count-and-le p q cs)

module _ {S : Type 0} (ops : Updates S) (n : String) where
  abbrev pub running : Content → Bool
  running c = named ops n c && not c.no_processing

  abbrev pub task_named : Task → Bool
  task_named t = named ops n t.update

  -- The tasks handed out are those that the marks record.
  count-mark-running :
      (i : Instance) (q : Queue) (cs : List Content)
      → count running (mark cs) ≡ count running cs + count task_named (jobs_of i q cs)
  unfolding mark jobs_of
  count-mark-running i q [] = refl
  count-mark-running i q (c ∷ cs) = ground (arith, count-mark-running i q cs)

  pub running-hand_out :
      (i : Instance)
      → let r = hand_out i in total running r.self ≡ total running i + count task_named r.tasks
  unfolding hand_out
  running-hand_out i = ground (
    arith,
    count-mark-running i Queue.unstable i.unstable,
    count-mark-running i Queue.stable i.stable,
    count-append task_named (jobs_of i Queue.unstable i.unstable) (jobs_of i Queue.stable i.stable),
  )

  pub running-le-named : (i : Instance) → total running i ≤ total (named ops n) i
  running-le-named i = omega (
    arith,
    count-and-le (named ops n) (λ c. not c.no_processing) i.unstable,
    count-and-le (named ops n) (λ c. not c.no_processing) i.impossible,
    count-and-le (named ops n) (λ c. not c.no_processing) i.stable,
    count-and-le (named ops n) (λ c. not c.no_processing) i.confirmed,
    count-and-le (named ops n) (λ c. not c.no_processing) i.fresh,
  )

  -- The content that is removed under a unique name is the one in processing.
  pub running-remove_where :
      (m : String) (i : Instance)
      → total (named ops n) i ≤ 1
      → total running (remove_where (named ops m) i) ≡ (if name_eq m n then 0 else total running i)
  running-remove_where m i u = elim (Bool-cases (name_eq m n)) [
    | inl e ↦ rw ((eq_iff m n).0 e) (
        rw ((eq_iff n n).1 refl) (
          omega (
            arith,
            running-le-named (remove_where (named ops n) i),
            total-remove_where (named ops n) i,
          )))
    | inr d ↦ rw d (
        total-remove_where_ne (named ops m) running i
          (λ c h. ground (arith, eq_iff (var_name ops c) m, eq_iff (var_name ops c) n, eq_iff m n)))
  ]

  -- The task's own copy is idle.
  pub running-requeue :
      (s : S) (t : Task) (i : Instance) {j : Instance}
      → IsIdle t.update
      → requeue ops s t i ≡ some j
      → total running j ≡ total running i
  unfolding requeue
  running-requeue s t i q h = ground (
    arith,
    count-append running i.unstable (init_done t.update ∷ []),
    count-append running i.impossible (t.update ∷ []),
    count-append running i.stable (t.update ∷ []),
    count-append running i.confirmed (t.update ∷ []),
  )

  -- A time step that gets `Done` had no content in processing.
  running-settle-done :
      (s : S) (i : Instance)
      → i.fresh ≡ []
      → All IsIdle i.confirmed
      → (settle ops s i).notified ≡ true
      → total running i ≡ 0
  unfolding settle
  running-settle-done s i f q h = ground (arith, count-idle (named ops n) i.confirmed q)

  pub running-update_status :
      (s : S) (i : Instance)
      → All IsIdle i.confirmed
      → total running (update_status ops s i).self ≡ total running i
  unfolding update_status busy_unbounds_found
  running-update_status s i q = ground (
    arith,
    scan_queue-found ops s i.variables i.fresh i.unbounds_ready,
    total-busy_unbounds_found ops running s i,
    total-settle ops running s (busy_unbounds_found ops s i).1,
    settle-Settled ops s (busy_unbounds_found ops s i).1,
    settle-notified ops s (busy_unbounds_found ops s i).1,
    running-settle-done s (busy_unbounds_found ops s i).1,
  )

-- The confirmed contents are idle, through the parts of a report.
pub quiet-remove_where :
    (p : Content → Bool) (i : Instance)
    → All IsIdle i.confirmed
    → All IsIdle (remove_where p i).confirmed
unfolding remove_where
quiet-remove_where p i q = ground (arith, All-remove_first IsIdle p i.confirmed q)

module _ {S : Type 0} (ops : Updates S) where
  pub quiet-requeue :
      (s : S) (t : Task) (i : Instance) {j : Instance}
      → IsIdle t.update
      → All IsIdle i.confirmed
      → requeue ops s t i ≡ some j
      → All IsIdle j.confirmed
  unfolding requeue
  quiet-requeue s t i h q e =
      ground (arith, All-append IsIdle i.confirmed (t.update ∷ []) q (h, tt))

  pub quiet-update_status :
      (s : S) (i : Instance)
      → All IsIdle i.confirmed
      → All IsIdle (update_status ops s i).self.confirmed
  unfolding update_status busy_unbounds_found settle
  quiet-update_status s i q = ground arith
