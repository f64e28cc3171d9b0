-- ===== src/Job/Flush/Life.antt =====
-- cxsom/src/cxsomJobs.hpp: the workers, which take jobs and end them in any order, while time steps change.
use cxsom.Prelude.{ℕ, ◌<◌, ◌≡◌, false, none, some, List, [], ◌∷◌, ◌++◌, length}
use cxsom.Symbol.{Variable}
use cxsom.Job.Center.{Steps, Center}
use cxsom.Job.Flush.{Jobs, get_one, job_ends, clear}

-- `running` are the jobs that were taken and have not ended.
pub record Life (P S J : Type 0) : Type 0 where
  pub jobs : Jobs P S J
  pub running : List J

abbrev pub born : {P S J : Type 0} → Life P S J
born = record {
  jobs = record {
    center = record { timesteps = []; patterns = [] };
    tasks = [];
    nb_ongoing_processes = 0;
    flushing = false;
    calls = [];
  };
  running = [];
}

-- A worker takes a job when fewer jobs run than there are workers. What the jobs and the clients do to
-- the time steps and the patterns is any change of the centre.
pub data Step {P S J : Type 0} (steps : Steps P S) (history_length : Variable → ℕ)
    (get_jobs : S → S × List J) (workers : ℕ) : Life P S J → Life P S J → Type 0 where
  takes :
      (l : Life P S J) (j : J) (r : Jobs P S J)
      → length l.running < workers
      → get_one steps history_length get_jobs l.jobs ≡ (some j, r)
      → Step steps history_length get_jobs workers l (record { jobs = r; running = j ∷ l.running })
  waits :
      (l : Life P S J) (r : Jobs P S J)
      → get_one steps history_length get_jobs l.jobs ≡ (none, r)
      → Step steps history_length get_jobs workers l (record l { jobs = r })
  ends :
      (l : Life P S J) (before : List J) (j : J) (rest : List J)
      → l.running ≡ before ++ j ∷ rest
      → Step steps history_length get_jobs workers l (record {
        jobs = job_ends steps history_length get_jobs l.jobs;
        running = before ++ rest;
      })
  changes :
      (l : Life P S J) (c : Center P S)
      → Step steps history_length get_jobs workers l
          (record l { jobs = record l.jobs { center = c } })
  clears :
      (l : Life P S J)
      → Step steps history_length get_jobs workers l
          (record l { jobs = clear steps history_length get_jobs l.jobs })

pub data Reach {P S J : Type 0} (steps : Steps P S) (history_length : Variable → ℕ)
    (get_jobs : S → S × List J) (workers : ℕ) (l : Life P S J) : Life P S J → Type 0 where
  here : Reach steps history_length get_jobs workers l l
  next :
      {m n : Life P S J}
      → Reach steps history_length get_jobs workers l m
      → Step steps history_length get_jobs workers m n
      → Reach steps history_length get_jobs workers l n
