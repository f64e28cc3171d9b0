-- ===== src/TimeStep/Run/Life/State.antt =====
-- What holds of a time step at every moment of its life: at its birth, and when an update is added.
use cxsom.Prelude.{
  ◌≡◌, refl, String, true, List, [], ◌∷◌, arith, count, count-append, All, contains,
  contains-insert, All-map,
}
use cxsom.Symbol.{TimeStep, variable_Eq, time_step_Eq}
use cxsom.TimeStep.{
  Content, Updates, Instance, Task, add, test_add, check_unbound, busy_unbounds_found,
}
use cxsom.TimeStep.Totals.{total}
use cxsom.TimeStep.Run.{var_name}
use cxsom.TimeStep.Run.Progress.{IsIdle}
use cxsom.TimeStep.Run.Unique.{IsUnique, variable_of, make-IsUnique, add-IsUnique}
use cxsom.TimeStep.Run.Life.{Life, born}
use cxsom.TimeStep.Run.Life.Running.{running, task_named}
use cxsom.TimeStep.Run.Life.NoInit.{NoInit}

module _ {S : Type 0} (ops : Updates S) where
  -- The task's variable is one of the time step's.
  abbrev pub IsKnown : Instance → Task → Type 0
  IsKnown i t = contains (variable_of i (var_name ops t.update)) i.variables ≡ true

  abbrev pub IsIdleTask : Task → Type 0
  IsIdleTask t = IsIdle t.update

  pub record Inv (l : Life S) : Type 0 where
    pub unique : IsUnique ops l.self
    pub known : All (IsKnown l.self) l.pending
    pub copies : All IsIdleTask l.pending
    pub quiet : All IsIdle l.self.confirmed
    pub matched : (n : String) → total (running ops n) l.self ≡ count (task_named ops n) l.pending
    pub usual : NoInit l.self

  pub Inv-born : (ts : TimeStep) (s : S) → Inv (born ts s)
  Inv-born ts s = record {
    unique = make-IsUnique ops ts;
    known = tt;
    copies = tt;
    quiet = tt;
    matched = λ n. refl;
    usual = (tt, tt);
  }

  pub check_unbound-quiet :
      (s : S) (i : Instance) → All IsIdle i.confirmed → All IsIdle (check_unbound ops s i).confirmed
  unfolding check_unbound busy_unbounds_found
  check_unbound-quiet s i q = ground arith

  pub check_unbound-usual : (s : S) (i : Instance) → NoInit i → NoInit (check_unbound ops s i)
  unfolding check_unbound busy_unbounds_found
  check_unbound-usual s i q = ground arith

  pub IsKnown-map :
      (i j : Instance) (ts : List Task)
      → j.who ≡ i.who
      → j.variables ≡ i.variables
      → All (IsKnown i) ts
      → All (IsKnown j) ts
  IsKnown-map i j ts w v = All-map (λ t h. ground (arith)) ts

  pub Inv-adds :
      (l : Life S) (c : Content)
      → c.no_processing ≡ true
      → Inv l
      → Inv (record l { self = add ops c l.self })
  unfolding add test_add
  Inv-adds l c q v = record {
    unique = add-IsUnique ops c l.self v.unique;
    known =
        All-map
          (λ t h. ground (
            arith,
            contains-insert (ops.who c.usual).variable (variable_of l.self (var_name ops t.update))
                l.self.variables,
          ))
          l.pending v.known;
    copies = v.copies;
    quiet = ground arith;
    matched = λ n. ground (arith, v.matched n, count-append (running ops n) l.self.fresh (c ∷ []));
    usual = ground arith;
  }
  -- What a report does, when it throws no exception.
