-- ===== src/Job/Flush/Tests.antt =====
-- A centre with a time step that has one job, and the theorems on it.
use cxsom.Prelude.{ℕ, ◌≡◌, refl, arith, true, false, ◌||◌, some, List, [], ◌∷◌, is_empty, All}
use cxsom.Symbol.{Variable, TimeStep}
use cxsom.Job.Center.{Steps, Center, clean, unprotected_realize_patterns, earliest, realize_all}
use cxsom.Job.Flush.{
  Jobs, ask_all, ask_center, ask_steps, ask_patterns, end_flushing, start_flushing, take_one,
  get_one, job_ends,
}
use cxsom.Job.Flush.Life.{Life, born, Reach, takes, waits, ends, changes, here, next}
use cxsom.Job.Flush.Writing.{inside, inside-Reach}
use cxsom.Job.Flush.Idle.{gives_none, is_idle, get_one-idle}

-- A time step is its name and its jobs, which are numbers.
abbrev queues : Steps Unit (TimeStep × List ℕ)
queues = record {
  make = λ ts. (ts, []);
  who = λ s. s.0;
  is_done = λ s. false;
  has_instance = λ i s. false;
  add_update = λ x s. s;
}

abbrev lengths : Variable → ℕ
lengths v = 0

abbrev hand_out : TimeStep × List ℕ → (TimeStep × List ℕ) × List ℕ
hand_out s = ((s.0, []), s.1)

abbrev main : TimeStep
main = record { timeline = "main"; at = 0 }

abbrev start : Life Unit (TimeStep × List ℕ) ℕ
start = born

abbrev filled : Center Unit (TimeStep × List ℕ)
filled = record { timesteps = (main, (main, 7 ∷ [])) ∷ []; patterns = [] }

abbrev ready : Life Unit (TimeStep × List ℕ) ℕ
ready = record start { jobs = record start.jobs { center = filled } }

abbrev next_of : Life Unit (TimeStep × List ℕ) ℕ → Jobs Unit (TimeStep × List ℕ) ℕ
next_of l = (get_one queues lengths hand_out l.jobs).1

abbrev working : Life Unit (TimeStep × List ℕ) ℕ
working = record { jobs = next_of ready; running = 7 ∷ [] }

abbrev ended : Life Unit (TimeStep × List ℕ) ℕ
ended = record { jobs = job_ends queues lengths hand_out working.jobs; running = [] }

abbrev over : Life Unit (TimeStep × List ℕ) ℕ
over = record ended { jobs = next_of ended }

Reach-over : Reach queues lengths hand_out 2 start over
unfolding get_one ask_patterns ask_steps ask_center ask_all take_one start_flushing end_flushing
    job_ends clean unprotected_realize_patterns earliest realize_all
Reach-over =
    next
      (next
        (next (next here (changes start filled)) (takes ready 7 working.jobs (omega arith) refl))
        (ends working [] 7 [] refl))
      (waits ended over.jobs refl)

inside-Reach_example :
    (inside over.jobs.calls ≡ some false) × ((is_empty over.running || over.jobs.flushing) ≡ true)
unfolding get_one ask_patterns ask_steps ask_center ask_all take_one start_flushing end_flushing
    job_ends clean unprotected_realize_patterns earliest realize_all
inside-Reach_example = inside-Reach queues lengths hand_out 2 over (omega arith) Reach-over

get_one-idle_example :
    All (λ e. is_idle queues lengths hand_out e ≡ true) ended.jobs.center.timesteps
    × All
        (λ e. gives_none queues lengths hand_out e ≡ true)
        (unprotected_realize_patterns queues lengths
          (ask_steps queues lengths hand_out ended.jobs).center).timesteps
unfolding get_one ask_patterns ask_steps ask_center ask_all take_one start_flushing end_flushing
    job_ends clean unprotected_realize_patterns earliest realize_all
get_one-idle_example = get_one-idle queues lengths hand_out ended.jobs over.jobs refl
