-- ===== src/TimeStep/Run/Life/Asking.antt =====
-- What holds of a time step when it hands out its tasks.
use text.Mathlib.TextEquality.{eq_iff}
use cxsom.Prelude.{
  ◌≤◌, ◌<◌, ◌≡◌, ◌∙◌, String, List, [], ◌∷◌, ◌++◌, arith, count, count-append, All, All-append, inl,
  inr, Bool-cases, All-map,
}
use cxsom.Symbol.{variable_Eq, time_step_Eq}
use cxsom.TimeStep.{Queue, Content, Updates, Instance, check_unbound}
use cxsom.TimeStep.Totals.{total}
use cxsom.TimeStep.Run.{named, var_name, get_jobs, hand_out, jobs_of}
use cxsom.TimeStep.Run.Unique.{IsUnique, get_jobs-IsUnique, check_unbound-rest, total-check_unbound}
use cxsom.TimeStep.Run.Life.{Life}
use cxsom.TimeStep.Run.Life.Running.{running, task_named, running-hand_out}
use cxsom.TimeStep.Run.Life.NoInit.{NoInit-hand_out}
use cxsom.TimeStep.Run.Life.State.{
  IsKnown, IsIdleTask, Inv, check_unbound-quiet, check_unbound-usual, IsKnown-map,
}

module _ {S : Type 0} (ops : Updates S) where
  jobs_of-copies :
      (i : Instance) (q : Queue) (cs : List Content) → All (IsIdleTask ops) (jobs_of i q cs)
  unfolding jobs_of
  jobs_of-copies i q [] = tt
  jobs_of-copies i q (c ∷ cs) = ground (arith, jobs_of-copies i q cs)

  -- The tasks handed out come from the queues.
  jobs_of-named :
      (i : Instance) (q : Queue) (cs : List Content)
      → All (λ t. 0 < count (named ops (var_name ops t.update)) cs) (jobs_of i q cs)
  unfolding jobs_of
  jobs_of-named i q [] = tt
  jobs_of-named i q (c ∷ cs) =
      let rest : All (λ t. 0 < count (named ops (var_name ops t.update)) (c ∷ cs))
          (jobs_of i q cs) =
        All-map (λ t h. omega arith) (jobs_of i q cs) (jobs_of-named i q cs) in
      elim (Bool-cases c.no_processing) [
        | inl e ↦ rw e (ground (arith, eq_iff (var_name ops c) (var_name ops c)), rest)
        | inr e ↦ rw e rest
      ]

  jobs_of-IsKnown :
      (i : Instance) (q : Queue) (cs : List Content)
      → IsUnique ops i
      → ((n : String) → count (named ops n) cs ≤ total (named ops n) i)
      → All (IsKnown ops i) (jobs_of i q cs)
  jobs_of-IsKnown i q cs u within =
      All-map (λ t h. ground (arith, u (var_name ops t.update), within (var_name ops t.update)))
        (jobs_of i q cs) (jobs_of-named i q cs)

  hand_out-IsKnown : (i : Instance) → IsUnique ops i → All (IsKnown ops i) (hand_out i).tasks
  unfolding hand_out
  hand_out-IsKnown i u =
      let ku = jobs_of-IsKnown i Queue.unstable i.unstable u (λ n. omega arith) in
      let ks = jobs_of-IsKnown i Queue.stable i.stable u (λ n. omega arith) in
      ground (arith, ku, ks, All-append (IsKnown ops i) _ _ ku ks)

  hand_out-copies : (i : Instance) → All (IsIdleTask ops) (hand_out i).tasks
  unfolding hand_out
  hand_out-copies i =
      let ku = jobs_of-copies i Queue.unstable i.unstable in
      let ks = jobs_of-copies i Queue.stable i.stable in
      ground (arith, ku, ks, All-append (IsIdleTask ops) _ _ ku ks)

  hand_out-rest :
      (i : Instance)
      → let j = (hand_out i).self in
        (j.who ≡ i.who) × (j.variables ≡ i.variables) × (j.confirmed ≡ i.confirmed)
  unfolding hand_out
  hand_out-rest i = ground arith

  pub Inv-asks :
      (l : Life S)
      → Inv ops l
      → Inv ops (record l {
        self = (get_jobs ops l.store l.self).self;
        pending = l.pending ++ (get_jobs ops l.store l.self).tasks;
      })
  unfolding get_jobs
  Inv-asks l v =
      let j = check_unbound ops l.store l.self in
      let (w, vars) = check_unbound-rest ops l.store l.self in
      let (w', vars', conf) = hand_out-rest j in
      let uj : IsUnique ops j = λ n.
        ground (arith, v.unique n, total-check_unbound ops (named ops n) l.store l.self, w, vars) in
      record {
        unique = get_jobs-IsUnique ops l.store l.self v.unique;
        known =
            All-append (IsKnown ops (hand_out j).self) l.pending (hand_out j).tasks
              (IsKnown-map ops l.self (hand_out j).self l.pending (w' ∙ w) (vars' ∙ vars) v.known)
              (IsKnown-map ops j (hand_out j).self (hand_out j).tasks w' vars'
                (hand_out-IsKnown j uj));
        copies =
            All-append (IsIdleTask ops) l.pending (hand_out j).tasks v.copies (hand_out-copies j);
        quiet = rw conf (check_unbound-quiet ops l.store l.self v.quiet);
        matched = λ n. omega (
          arith,
          v.matched n,
          total-check_unbound ops (running ops n) l.store l.self,
          running-hand_out ops n j,
          count-append (task_named ops n) l.pending (hand_out j).tasks,
        );
        usual = NoInit-hand_out j (check_unbound-usual ops l.store l.self v.usual);
      }
