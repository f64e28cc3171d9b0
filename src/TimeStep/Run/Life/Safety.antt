-- ===== src/TimeStep/Run/Life/Safety.antt =====
-- What the invariant of a time step's life gives.
use text.Mathlib.TextEquality.{eq_iff}
use cxsom.Prelude.{
  ◌≤◌, ◌≡◌, ◌⊎◌, refl, ap, if◌then◌else◌, ◌∙◌, Bool, some, Option-cases, inl, inr, String, true,
  List, [], ◌∷◌, arith, count, All,
}
use cxsom.Symbol.{TimeStep, variable_Eq}
use cxsom.TimeStep.{Status, Content, Updates, Instance, Outcome, Task, call, update_status}
use cxsom.TimeStep.Settling.{Settled}
use cxsom.TimeStep.Totals.{total}
use cxsom.TimeStep.Run.{named, var_name, get_jobs, run_task, report, requeue, remove_update}
use cxsom.TimeStep.Run.Progress.{IsIdle, get_jobs-progress}
use cxsom.TimeStep.Run.Life.{Life, Reach, born}
use cxsom.TimeStep.Run.Life.Running.{running, task_named, running-le-named}
use cxsom.TimeStep.Run.Life.NoInit.{
  set_usual_ready, update_status-store, NoInit-requeue, NoInit-remove_where,
}
use cxsom.TimeStep.Run.Life.Invariant.{Reach-Inv}

module _ {S : Type 0} (ops : Updates S) where
  -- In every reachable state, each variable has at most one queued update, and at most one task that
  -- runs it.
  pub pending_once :
      (ts : TimeStep) (s : S) {l : Life S}
      → Reach ops (born ts s) l
      → (n : String) → (total (named ops n) l.self ≤ 1) × (count (task_named ops n) l.pending ≤ 1)
  pending_once ts s {l} r n =
      let v = Reach-Inv ops ts s r in
      ground (arith, v.unique n, v.matched n, running-le-named ops n l.self)

  named-nil : (ts : List Task) → ((n : String) → count (task_named ops n) ts ≡ 0) → ts ≡ []
  named-nil [] h = refl
  named-nil (t ∷ ts) h = absurd (
      ground
        (arith, h (var_name ops t.update), eq_iff (var_name ops t.update) (var_name ops t.update)))

  -- A reachable time step whose queues are all empty, as they are when it is done, has no task that
  -- is still to be reported.
  pub done-pending :
      (ts : TimeStep) (s : S) {l : Life S}
      → Reach ops (born ts s) l
      → Settled Status.done l.self
      → l.pending ≡ []
  done-pending ts s {l} r d =
      let v = Reach-Inv ops ts s r in named-nil l.pending (λ n. ground (arith, v.matched n))

  All-IsIdle : (cs : List Content) → ((n : String) → count (running ops n) cs ≡ 0) → All IsIdle cs
  All-IsIdle [] h = tt
  All-IsIdle (c ∷ cs) h = (
    ground (arith, h (var_name ops c), eq_iff (var_name ops c) (var_name ops c)),
    All-IsIdle cs (λ n. omega (arith, h n)),
  )

  -- No deadlock: a reachable time step that waits for no task, and whose settled status is `Relaxing`
  -- or `Checking`, hands out a job.
  pub no_deadlock :
      (ts : TimeStep) (s : S) {l : Life S}
      → Reach ops (born ts s) l
      → l.pending ≡ []
      → (l.self.status ≡ Status.relaxing) ⊎ (l.self.status ≡ Status.checking)
      → Settled l.self.status l.self
      → (get_jobs ops l.store l.self).found ≡ true
  no_deadlock ts s {l} r e h d =
      let v = Reach-Inv ops ts s r in
      let quiet : (n : String) → total (running ops n) l.self ≡ 0 =
        λ n. v.matched n ∙ ap (count (task_named ops n)) e in
      get_jobs-progress ops l.store l.self h d
        (All-IsIdle l.self.unstable (λ n. omega (arith, quiet n)))
        (All-IsIdle l.self.stable (λ n. omega (arith, quiet n)))

  -- In every reachable state, when a task has been run and reported without an exception: if the report
  -- ends the time step, the usual update of each content that is confirmed once the update of the task
  -- is back in its queue is made ready after the execution, in order, and no init update; if it
  -- does not, the state of the updates is the one that the execution left.
  pub ready_usual_only :
      (ts : TimeStep) (s : S) {l : Life S}
      → Reach ops (born ts s) l
      → (t : Task) {o : Outcome S} {b : Bool} → run_task ops l.store t l.self ≡ some (o, b)
      → let (st, s') = ops.exec (call t.update) l.store in
        (j : Instance) × (requeue ops s'
            (record t { report = st })
            (remove_update ops (var_name ops t.update) l.self)
          ≡ some j)
        × (o.store ≡ (if o.notified then set_usual_ready ops j.confirmed s' else s'))
  unfolding run_task report remove_update
  ready_usual_only ts s {l} r t {o} {b} h =
      let (st, s') = ops.exec (call t.update) l.store in
      let u : Task = record t { report = st } in
      let i = remove_update ops (var_name ops t.update) l.self in
      elim (Option-cases (requeue ops s' u i)) [
        | inl e ↦ absurd (ground (arith))
        | inr (j, e) ↦
            let v =
              NoInit-requeue ops s' u i
                (NoInit-remove_where (named ops (var_name ops t.update)) l.self
                  (Reach-Inv ops ts s r).usual)
                e in
            let q : update_status ops s' j ≡ o = ground (arith) in
            let (done, quiet) = update_status-store ops s' j v in
            (j, e, ground (arith, done, quiet))
      ]
