-- ===== src/Engine/Blocking.antt =====
-- A time step that is blocked has something to wait for.
use cxsom.Prelude.{ℕ, ◌≡◌, ◌≢◌, ◌⊎◌, true, some, [], ◌∷◌, ◌++◌, arith}
use cxsom.Symbol.{time_step_Eq}
use cxsom.Data.Instance.{Files}
use cxsom.Update
use cxsom.Update.{Hooks}
use cxsom.Update.Exec.Result.{exec-impossible}
use cxsom.TimeStep.{Status, Instance, Task, Outcome, call}
use cxsom.TimeStep.Run.{run_task, remove_update, var_name}
use cxsom.TimeStep.Run.Reports.{run_task-impossible}
use cxsom.Engine.{Store, Rule, updates, exec_at}

module _ {F D M : Type 0} (hooks : Hooks F D) (files : Files D M) (rules : ℕ → Rule) where
  -- An execution that returns `Impossible` leaves a blocker in the range that is reported.
  exec_at-blockers :
      (p : ℕ) (s : Store F D M)
      → (exec_at hooks files rules p s).0 ≡ Update.Status.impossible
      → (updates hooks files rules).blockers_range (exec_at hooks files rules p s).1 p ≢ []
  unfolding exec_at
  exec_at-blockers p s h = ground (arith, (exec-impossible files hooks (s.base p) s.memory).1 h)

  -- A task that asks for `notify_blocked` has put its update at the end of the queue `Impossible`,
  -- behind the others that were there, and leaves its time step with a blocker to wait for and one to be told of; the time
  -- step is blocked, or unbound.
  pub run_task-blocked :
      (s : Store F D M) (t : Task) (i : Instance) {o : Outcome (Store F D M)}
      → run_task (updates hooks files rules) s t i ≡ some (o, true)
      → (o.self.impossible
          ≡ (remove_update
              (updates hooks files rules)
              (var_name (updates hooks files rules) t.update)
              i).impossible
            ++ t.update ∷ [])
        × (o.self.blockers ≢ [])
        × (o.self.new_blockers ≢ [])
        × ((o.self.status ≡ Status.blocked) ⊎ (o.self.status ≡ Status.unbound))
  run_task-blocked s t i h =
      run_task-impossible (updates hooks files rules) s t i
        (λ e. exec_at-blockers (call t.update) s e) h
