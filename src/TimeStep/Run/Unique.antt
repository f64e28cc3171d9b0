-- ===== src/TimeStep/Run/Unique.antt =====
-- Each variable of a time step has one update at most in the queues, through every operation.
use text.Mathlib.TextEquality.{eq_iff}
use cxsom.Prelude.{
  ◌+◌, ◌-◌, ◌≤◌, ◌≡◌, refl, String, Bool, true, false, some, List, [], ◌∷◌, if◌then◌else◌, arith,
  count, count-append, contains, contains-insert, Bool-cases, inl, inr, Option-cases, erase,
}
use cxsom.Symbol.{Variable, TimeStep, variable_Eq, time_step_Eq, name_eq}
use cxsom.TimeStep.{
  Content, Updates, Instance, Task, Outcome, update_status, test_add, add, clear_blocking_info,
  notify_unblock, make, busy_unbounds_found, settle, check_unbound,
}
use cxsom.TimeStep.Settling.{update_status-Settled}
use cxsom.TimeStep.Totals.{total, total-update_status, total-busy_unbounds_found}
use cxsom.TimeStep.Run.{named, var_name, remove_update, requeue, report, get_jobs, hand_out, mark}
use cxsom.TimeStep.Run.Removal.{
  ends, total-remove_where, total-remove_where_ne, remove_where-rest, total-requeue, requeue-rest,
}

abbrev pub variable_of : Instance → String → Variable
variable_of i n = record { timeline = i.who.timeline; name = n }

module _ {S : Type 0} (ops : Updates S) where
  named_disjoint :
      (m n : String)
      → name_eq m n ≡ false
      → (c : Content) → named ops m c ≡ true
      → named ops n c ≡ false
  named_disjoint m n d c h =
      ground (arith, eq_iff (var_name ops c) m, eq_iff (var_name ops c) n, eq_iff m n)

  pub total-remove_update :
      (m n : String) (i : Instance)
      → total (named ops n) (remove_update ops m i)
        ≡ (if name_eq m n then total (named ops n) i - 1 else total (named ops n) i)
  unfolding remove_update
  total-remove_update m n i = elim (Bool-cases (name_eq m n)) [
    | inl e ↦ rw ((eq_iff m n).0 e) (rw ((eq_iff n n).1 refl) (total-remove_where (named ops n) i))
    | inr d ↦ rw d (total-remove_where_ne (named ops m) (named ops n) i (named_disjoint m n d))
  ]

  -- A report that does not end the time step (it does not notify) counts for one: the content that
  -- carries the name of the task leaves its queue, and the task's own copy comes back unless its usual
  -- update is done; all other names keep their number.
  pub total-report :
      (n : String) (s : S) (t : Task) (i : Instance) {o : Outcome S}
      → report ops s t i ≡ some o
      → o.notified ≡ false
      → total (named ops n) o.self ≡ (
          if named ops n t.update
          then (total (named ops n) i - 1) + (if ends t then 0 else 1)
          else total (named ops n) i)
  unfolding report
  total-report n s t i {o} h q =
      elim (Option-cases (requeue ops s t (remove_update ops (var_name ops t.update) i))) [
        | inl e ↦ ground (arith)
        | inr (j, e) ↦ ground (
          arith,
          total-update_status ops (named ops n) s j,
          total-requeue ops n s t (remove_update ops (var_name ops t.update) i) e,
          total-remove_update (var_name ops t.update) n i,
        )
      ]

  -- The names queued are those of distinct variables of the time step.
  abbrev pub IsUnique : Instance → Type 0
  IsUnique i =
      (n : String)
      → total (named ops n) i ≤ (if contains (variable_of i n) i.variables then 1 else 0)

  pub make-IsUnique : (ts : TimeStep) → IsUnique (make ts)
  make-IsUnique ts n = ground arith

  -- Adding an update keeps the names distinct: `test_add` refuses a variable that is there.
  pub add-IsUnique : (c : Content) (i : Instance) → IsUnique i → IsUnique (add ops c i)
  unfolding add test_add
  add-IsUnique c i u n = ground (
    arith,
    u n,
    count-append (named ops n) i.fresh (c ∷ []),
    contains-insert (ops.who c.usual).variable (variable_of i n) i.variables,
    eq_iff (ops.who c.usual).variable.name n,
    eq_iff (ops.who c.usual).variable.timeline i.who.timeline,
  )

  pub update_status-rest :
      (s : S) (i : Instance)
      → let j = (update_status ops s i).self in (j.who ≡ i.who) × (j.variables ≡ i.variables)
  unfolding update_status busy_unbounds_found settle
  update_status-rest s i = ground arith

  -- After `Done` no content is left, whatever its name.
  total-done :
      (p : Content → Bool) (s : S) (i : Instance)
      → (update_status ops s i).notified ≡ true
      → total p (update_status ops s i).self ≡ 0
  total-done p s i h = ground (arith, update_status-Settled ops s i)

  -- `notify_unblock` and `update_status` keep the names distinct, the step done or not.
  pub update_status-IsUnique :
      (s : S) (i : Instance) → IsUnique i → IsUnique (update_status ops s i).self
  update_status-IsUnique s i u n = elim (Bool-cases (update_status ops s i).notified) [
    | inl d ↦ ground (arith, total-done (named ops n) s i)
    | inr q ↦ ground (arith, u n, total-update_status ops (named ops n) s i, update_status-rest s i)
  ]

  pub notify_unblock-IsUnique :
      (b : TimeStep) (s : S) (i : Instance) → IsUnique i → IsUnique (notify_unblock ops b s i).self
  unfolding notify_unblock
  notify_unblock-IsUnique b s i u n =
      let j : Instance = record i { blockers = erase b i.blockers } in
      ground (arith, u n, update_status-IsUnique s j u n)

  pub clear_blocking_info-IsUnique :
      (s : S) (i : Instance) → IsUnique i → IsUnique (clear_blocking_info ops s i).0
  unfolding clear_blocking_info
  clear_blocking_info-IsUnique s i u n =
      ground (arith, u n, count-append (named ops n) i.unstable i.impossible)

  count-mark :
      (n : String) (cs : List Content) → count (named ops n) (mark cs) ≡ count (named ops n) cs
  unfolding mark
  count-mark n [] = refl
  count-mark n (c ∷ cs) = ground (arith, count-mark n cs)

  pub check_unbound-rest :
      (s : S) (i : Instance)
      → let j = check_unbound ops s i in (j.who ≡ i.who) × (j.variables ≡ i.variables)
  unfolding check_unbound busy_unbounds_found
  check_unbound-rest s i = ground arith

  pub total-check_unbound :
      (p : Content → Bool) (s : S) (i : Instance) → total p (check_unbound ops s i) ≡ total p i
  unfolding check_unbound
  total-check_unbound p s i = ground (arith, total-busy_unbounds_found ops p s i)

  pub get_jobs-IsUnique : (s : S) (i : Instance) → IsUnique i → IsUnique (get_jobs ops s i).self
  unfolding get_jobs hand_out
  get_jobs-IsUnique s i u n =
      let j = check_unbound ops s i in
      ground (
        arith,
        u n,
        total-check_unbound (named ops n) s i,
        check_unbound-rest s i,
        count-mark n j.unstable,
        count-mark n j.stable,
      )

  -- A report keeps the names distinct, if the reported update is one of the time step's.
  pub report-IsUnique :
      (s : S) (t : Task) (i : Instance) {o : Outcome S}
      → IsUnique i
      → contains (variable_of i (var_name ops t.update)) i.variables ≡ true
      → report ops s t i ≡ some o
      → IsUnique o.self
  unfolding report remove_update
  report-IsUnique s t i {o} u known h n =
      let r = remove_update ops (var_name ops t.update) i in
      elim (Option-cases (requeue ops s t r)) [
        | inl e ↦ ground (arith)
        | inr (j, e) ↦ ground (
          arith,
          update_status-IsUnique s j
              (λ m. ground (
                arith,
                u m,
                total-requeue ops m s t r e,
                total-remove_update (var_name ops t.update) m i,
                requeue-rest ops s t r e,
                remove_where-rest (named ops (var_name ops t.update)) i,
                eq_iff (var_name ops t.update) m,
              ))
              n,
        )
      ]
