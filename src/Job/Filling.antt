-- ===== src/Job/Filling.antt =====
-- cxsom/src/cxsomJobs.hpp with cxsom/src/cxsomTimeStep.hpp: the time steps that the job centre uses.
use cxsom.Prelude.{
  List, [], ◌∷◌, ◌++◌, map, ◌||◌, ◌=?◌, Bool, true, ◌≡◌, refl, contains, contains-insert, subst, ap,
  sym, ◌∙◌, arith,
}
use cxsom.Symbol.{
  Variable, TimeStep, variable_Eq, time_step_of, belongs, name_Eq, name_eq, time_step_eq_iff,
  time_step_eq,
}
use cxsom.Symbol
use cxsom.TimeStep.{Updates, Content, make, test_add, add, Status}
use cxsom.TimeStep
use cxsom.TimeStep.Settling.{is_done}
use cxsom.Job.{Update}
use cxsom.Job.Center.{Steps}
use cxsom.Job.Opening.{Laws}
use cxsom.Job.Queuing.{Queuing}

-- The factory of updates gives the content that is added for a rule.
module _ {S P : Type 0} (ops : Updates S) (factory : Update P → Content) where
  abbrev pub time_steps : Steps P TimeStep.Instance
  time_steps = record {
    make = λ ts. make ts;
    who = λ i. i.who;
    is_done = λ i. is_done i.status;
    has_instance = λ r i. contains r.variable i.variables;
    add_update = λ x i. add ops (factory x) i;
  }

  belongs-time_step_of : (r : Symbol.Instance) → belongs r (time_step_of r) ≡ true
  belongs-time_step_of r = ground (arith, name_Eq.beq_iff r.variable.timeline r.variable.timeline)

  add-who : (c : Content) (i : TimeStep.Instance) → (add ops c i).who ≡ i.who
  unfolding add test_add
  add-who c i = ground arith

  add-kept :
      (c : Content) (v : Variable) (i : TimeStep.Instance)
      → contains v i.variables ≡ true
      → contains v (add ops c i).variables ≡ true
  unfolding add test_add
  add-kept c v i h = ground (arith, contains-insert (ops.who c.usual).variable v i.variables)

  add-added :
      (c : Content) (i : TimeStep.Instance)
      → belongs (ops.who c.usual) i.who ≡ true
      → contains (ops.who c.usual).variable (add ops c i).variables ≡ true
  unfolding add test_add
  add-added c i h = ground (
    arith,
    contains-insert (ops.who c.usual).variable (ops.who c.usual).variable i.variables,
    variable_Eq.beq_iff (ops.who c.usual).variable (ops.who c.usual).variable,
  )

  -- If the factory makes updates of the instance that their rule is about, the time steps of the
  -- model keep what the job centre puts in them.
  pub time_steps-Laws : ((x : Update P) → ops.who (factory x).usual ≡ x.res) → Laws time_steps
  time_steps-Laws h = record {
    made = λ k. refl;
    same = λ x i. add-who (factory x) i;
    added = λ x i w.
        subst (λ r. contains r.variable (add ops (factory x) i).variables ≡ true) (h x)
          (add-added (factory x) i (
            subst (λ t. belongs (ops.who (factory x).usual) t ≡ true)
              (ap time_step_of (h x) ∙ sym w) (belongs-time_step_of (ops.who (factory x).usual))));
    kept = λ x r i e. add-kept (factory x) r.variable i e;
  }

  -- A content of the variable waits in `New`.
  abbrev in_fresh : Symbol.Instance → TimeStep.Instance → Bool
  in_fresh r i = contains r.variable (map (λ c. (ops.who c.usual).variable) i.fresh)

  in_fresh-end :
      (r : Symbol.Instance) (c : Content) (cs : List Content)
      → contains r.variable (map (λ c. (ops.who c.usual).variable) (cs ++ c ∷ [])) ≡ (
          contains r.variable (map (λ c. (ops.who c.usual).variable) cs)
          || ((ops.who c.usual).variable =? r.variable))
  unfolding contains
  in_fresh-end r c [] = ground arith
  in_fresh-end r c (d ∷ cs) = ground (arith, in_fresh-end r c cs)

  -- The time steps of the model queue what the job centre puts in them.
  pub time_steps-Queuing : Queuing time_steps
  unfolding add test_add contains
  time_steps-Queuing = record {
    queued = in_fresh;
    fresh = λ i k. refl;
    added = λ x r i f t. ground (
      arith,
      contains-insert (ops.who (factory x).usual).variable r.variable i.variables,
      variable_Eq.beq_iff (ops.who (factory x).usual).variable r.variable,
      in_fresh-end r (factory x) i.fresh,
    );
    kept = λ x r i h. ground (arith, in_fresh-end r (factory x) i.fresh);
  }
