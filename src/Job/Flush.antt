-- ===== src/Job/Flush.antt =====
-- cxsom/src/cxsomJobs.hpp: `get_one`, which the workers call for their next job, and `clear`.
pub mod Life
pub mod Writing
pub mod Idle
pub mod Tests
use cxsom.Prelude.{
  ℕ, ◌+◌, ◌%◌, Bool, true, false, not, ◌&&◌, if◌then◌else◌, ◌==◌, Option, none, some, List, [], ◌∷◌,
  ◌++◌, is_empty,
}
use cxsom.Symbol.{Variable, TimeStep}
use cxsom.Job.Center.{Steps, Center, clean_timesteps, unprotected_realize_patterns}

-- What the centre asks of the explicit scope of the writer, if it has one.
pub data Call : Type 0 where
  enter leave : Call

-- The centre with `tasks`, `nb_ongoing_processes` and `flushing_tasks_in_progress`; `calls` are
-- those of `on_start_flushing_tasks` and `on_end_flushing_tasks`, the last one first.
pub record Jobs (P S J : Type 0) : Type 0 where
  pub center : Center P S
  pub tasks : List J
  pub nb_ongoing_processes : ℕ
  pub flushing : Bool
  pub calls : List Call

-- 2^32, for an `unsigned int`
abbrev pub uint : ℕ
uint = 4294967296

-- `get_jobs` is that of a time step.
module _ {P S J : Type 0} (steps : Steps P S) (history_length : Variable → ℕ)
    (get_jobs : S → S × List J) where
  -- Every time step is asked, in their order.
  unfoldable pub ask_all : List (TimeStep × S) → List (TimeStep × S) × List J
  ask_all [] = ([], [])
  ask_all ((k, s) ∷ rest) =
      let (s', js) = get_jobs s in let (rest', more) = ask_all rest in ((k, s') ∷ rest', js ++ more)

  -- The loop over the time steps, when there is no task.
  unfoldable pub ask_center : Center P S → Jobs P S J → Jobs P S J
  ask_center c r =
      let (ts, js) = ask_all c.timesteps in
      record r { center = record c { timesteps = ts }; tasks = js }

  -- The two rounds of questions.
  unfoldable pub ask_steps : Jobs P S J → Jobs P S J
  ask_steps r =
      if is_empty r.tasks then ask_center (clean_timesteps steps history_length r.center) r else r

  unfoldable pub ask_patterns : Jobs P S J → Jobs P S J
  ask_patterns r =
      if is_empty r.tasks
      then ask_center (unprotected_realize_patterns steps history_length r.center) r
      else r

  -- No job was found.
  unfoldable pub end_flushing : Jobs P S J → Jobs P S J
  end_flushing r =
      if r.nb_ongoing_processes == 0 && r.flushing
      then record r { flushing = false; calls = Call.leave ∷ r.calls }
      else r

  -- A job was found.
  unfoldable pub start_flushing : Jobs P S J → Jobs P S J
  start_flushing r =
      let n = (r.nb_ongoing_processes + 1) % uint in
      if not r.flushing && n == 1
      then record r { nb_ongoing_processes = n; flushing = true; calls = Call.enter ∷ r.calls }
      else record r { nb_ongoing_processes = n }

  -- The first task, if there is one, is taken away.
  unfoldable pub take_one : List J → Jobs P S J → Option J × Jobs P S J
  take_one [] r = (none, end_flushing r)
  take_one (j ∷ rest) r = (some j, record (start_flushing r) { tasks = rest })

  unfoldable pub get_one : Jobs P S J → Option J × Jobs P S J
  get_one r = let a = ask_patterns (ask_steps r) in take_one a.tasks a

  -- The end of a job in `worker_thread`.
  unfoldable pub job_ends : Jobs P S J → Jobs P S J
  job_ends r = record r { nb_ongoing_processes = (r.nb_ongoing_processes + 4294967295) % uint }

  -- `clear`, for these members.
  unfoldable pub clear : Jobs P S J → Jobs P S J
  clear r = record r { center = record { timesteps = []; patterns = [] }; tasks = [] }
