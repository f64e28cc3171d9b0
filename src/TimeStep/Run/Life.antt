-- ===== src/TimeStep/Run/Life.antt =====
-- The life of a time step: the calls that it gets from the job centre and from its tasks, in any
-- order, while other time steps and clients change the state of the updates.
pub mod Running
pub mod NoInit
pub mod State
pub mod Asking
pub mod Invariant
pub mod Safety
use cxsom.Prelude.{◌≡◌, Bool, true, Option, none, some, List, [], ◌∷◌, ◌++◌}
use cxsom.Symbol.{TimeStep}
use cxsom.TimeStep.{
  Content, Updates, Instance, Task, Outcome, make, add, notify_unblock, clear_blocking_info,
}
use cxsom.TimeStep.Run.{get_jobs, run_task}

-- `pending` holds the tasks handed out and not reported yet.
pub record Life (S : Type 0) : Type 0 where
  pub self : Instance
  pub store : S
  pub pending : List Task

abbrev pub after : {S : Type 0} → Outcome S → List Task → Life S
after o ts = record { self = o.self; store = o.store; pending = ts }

pub data Step {S : Type 0} (ops : Updates S) : Life S → Life S → Type 0 where
  adds :
      (l : Life S) (c : Content)
      → c.no_processing ≡ true
      → Step ops l (record l { self = add ops c l.self })
  asks :
      (l : Life S)
      → Step ops l (record l {
        self = (get_jobs ops l.store l.self).self;
        pending = l.pending ++ (get_jobs ops l.store l.self).tasks;
      })
  runs :
      (l : Life S) (before : List Task) (t : Task) (rest : List Task) (o : Outcome S) (b : Bool)
      → l.pending ≡ before ++ t ∷ rest
      → run_task ops l.store t l.self ≡ some (o, b)
      → Step ops l (after o (before ++ rest))
  unblocks :
      (l : Life S) (b : TimeStep)
      → Step ops l (after (notify_unblock ops b l.store l.self) l.pending)
  clears :
      (l : Life S)
      → Step ops l (record l {
        self = (clear_blocking_info ops l.store l.self).0;
        store = (clear_blocking_info ops l.store l.self).1;
      })
  others : (l : Life S) (s : S) → Step ops l (record l { store = s })

pub data Reach {S : Type 0} (ops : Updates S) (l : Life S) : Life S → Type 0 where
  here : Reach ops l l
  next : {m n : Life S} → Reach ops l m → Step ops m n → Reach ops l n

abbrev pub born : {S : Type 0} → TimeStep → S → Life S
born ts s = record { self = make ts; store = s; pending = [] }
