-- ===== src/TimeStep/Run/Life/Invariant.antt =====
-- What holds of a time step at every moment of its life: every call keeps it.
use text.Mathlib.TextEquality.{eq_iff}
use cxsom.Prelude.{
  is_empty, ◌≡◌, refl, sym, ap, subst, ◌∙◌, Bool, some, List, ◌∷◌, ◌++◌, arith, count, count-append,
  All, inl, inr, Bool-cases, Option-cases, All-middle, count-middle, erase,
}
use cxsom.Symbol.{TimeStep, variable_Eq, time_step_Eq}
use cxsom.TimeStep.{
  Updates, Instance, Task, Outcome, notify_unblock, clear_blocking_info, update_status, call,
}
use cxsom.TimeStep.Run.{named, var_name, report, requeue, remove_update, run_task}
use cxsom.TimeStep.Run.Progress.{IsIdle}
use cxsom.TimeStep.Run.Unique.{
  update_status-IsUnique, update_status-rest, total-remove_update, clear_blocking_info-IsUnique,
}
use cxsom.TimeStep.Run.Life.{
  Life, Step, Reach, born, after, adds, asks, runs, unblocks, clears, others, here, next,
}
use cxsom.TimeStep.Run.Life.Running.{
  running, task_named, running-le-named, running-remove_where, running-requeue,
  running-update_status, quiet-remove_where, quiet-requeue, quiet-update_status,
}
use cxsom.TimeStep.Run.Life.NoInit.{NoInit-remove_where, NoInit-requeue, NoInit-update_status}
use cxsom.TimeStep.Run.Removal.{total-requeue, requeue-rest, remove_where-rest}
use cxsom.TimeStep.Run.Life.State.{IsKnown, IsIdleTask, Inv, Inv-born, IsKnown-map, Inv-adds}
use cxsom.TimeStep.Run.Life.Asking.{Inv-asks}

module _ {S : Type 0} (ops : Updates S) where
  report-parts :
      (s : S) (t : Task) (i : Instance) {o : Outcome S}
      → report ops s t i ≡ some o
      → (j : Instance) × (requeue ops s t (remove_update ops (var_name ops t.update) i) ≡ some j)
        × (o ≡ update_status ops s j)
  unfolding report
  report-parts s t i h =
      elim (Option-cases (requeue ops s t (remove_update ops (var_name ops t.update) i))) [
        | inl e ↦ ground arith
        | inr (j, e) ↦ (j, e, ground arith)
      ]

  Inv-update_status :
      (s : S) (i : Instance) (ts : List Task) (r : S)
      → Inv ops (record { self = i; store = r; pending = ts })
      → Inv ops (after (update_status ops s i) ts)
  Inv-update_status s i ts r v =
      let (w, vars) = update_status-rest ops s i in
      record {
        unique = update_status-IsUnique ops s i v.unique;
        known = IsKnown-map ops i (update_status ops s i).self ts w vars v.known;
        copies = v.copies;
        quiet = quiet-update_status ops s i v.quiet;
        matched = λ n. omega (arith, v.matched n, running-update_status ops n s i v.quiet);
        usual = NoInit-update_status ops s i v.usual;
      }

  Inv-unblocks :
      (l : Life S) (b : TimeStep)
      → Inv ops l
      → Inv ops (after (notify_unblock ops b l.store l.self) l.pending)
  unfolding notify_unblock
  Inv-unblocks l b v =
      let j : Instance = record l.self { blockers = erase b l.self.blockers } in
      let vj : Inv ops (record { self = j; store = l.store; pending = l.pending }) = record {
        unique = v.unique;
        known = v.known;
        copies = v.copies;
        quiet = v.quiet;
        matched = v.matched;
        usual = v.usual;
      } in
      elim (Bool-cases (is_empty j.blockers)) [
        | inl e ↦ rw e (Inv-update_status l.store j l.pending l.store vj)
        | inr e ↦ rw e vj
      ]

  Inv-clears :
      (l : Life S)
      → Inv ops l
      → Inv ops (record l {
        self = (clear_blocking_info ops l.store l.self).0;
        store = (clear_blocking_info ops l.store l.self).1;
      })
  unfolding clear_blocking_info
  Inv-clears l v = record {
    unique = clear_blocking_info-IsUnique ops l.store l.self v.unique;
    known = v.known;
    copies = v.copies;
    quiet = v.quiet;
    matched = λ n.
        omega (arith, v.matched n, count-append (running ops n) l.self.unstable l.self.impossible);
    usual = v.usual;
  }

  -- The content of the task leaves its queue, and the task's own copy comes back.
  Inv-requeue :
      (l : Life S) (before : List Task) (t u : Task) (rest : List Task) (s : S) {j : Instance}
      → l.pending ≡ before ++ t ∷ rest
      → u.update ≡ t.update
      → Inv ops l
      → requeue ops s u (remove_update ops (var_name ops u.update) l.self) ≡ some j
      → Inv ops (record { self = j; store = s; pending = before ++ rest })
  unfolding remove_update
  Inv-requeue l before t u rest s {j} e same v q =
      let m = var_name ops u.update in
      let r = remove_update ops m l.self in
      let (w, vars, _) = requeue-rest ops s u r q in
      let (_, w', vars', _) = remove_where-rest (named ops m) l.self in
      let (ks, kt) =
        All-middle (IsKnown ops l.self) before t rest
          (subst (All (IsKnown ops l.self)) e v.known) in
      let (cs, ct) =
        All-middle (IsIdleTask ops) before t rest (subst (All (IsIdleTask ops)) e v.copies) in
      record {
        unique = λ n. ground (
          arith,
          v.unique n,
          total-requeue ops n s u r q,
          total-remove_update ops m n l.self,
          kt,
          eq_iff m n,
        );
        known = IsKnown-map ops l.self j (before ++ rest) (w ∙ w') (vars ∙ vars') ks;
        copies = cs;
        quiet =
            quiet-requeue ops s u r (subst IsIdle (sym same) ct)
              (quiet-remove_where (named ops m) l.self v.quiet) q;
        matched = λ n. ground (
          arith,
          v.matched n,
          v.unique n,
          ap (count (task_named ops n)) e,
          count-middle (task_named ops n) before t rest,
          running-remove_where ops n m l.self,
          running-requeue ops n s u r (subst IsIdle (sym same) ct) q,
          running-le-named ops n l.self,
          same,
        );
        usual = NoInit-requeue ops s u r (NoInit-remove_where (named ops m) l.self v.usual) q;
      }

  run_task-report :
      (s : S) (t : Task) (i : Instance) {o : Outcome S} {b : Bool}
      → run_task ops s t i ≡ some (o, b)
      → let (st, s') = ops.exec (call t.update) s in
        report ops s' (record t { report = st }) i ≡ some o
  unfolding run_task
  run_task-report s t i {o} {b} h =
      let (st, s') = ops.exec (call t.update) s in
      elim (Option-cases (report ops s' (record t { report = st }) i)) [
        | inl e ↦ ground (arith)
        | inr (p, e) ↦ ground (arith)
      ]

  Inv-runs :
      (l : Life S) (before : List Task) (t : Task) (rest : List Task) (o : Outcome S) (b : Bool)
      → l.pending ≡ before ++ t ∷ rest
      → run_task ops l.store t l.self ≡ some (o, b)
      → Inv ops l
      → Inv ops (after o (before ++ rest))
  unfolding run_task
  Inv-runs l before t rest o b e h v =
      let (st, s') = ops.exec (call t.update) l.store in
      let u : Task = record t { report = st } in
      let (j, q, eq) = report-parts s' u l.self (run_task-report l.store t l.self h) in
      subst (λ x. Inv ops (after x (before ++ rest))) (sym eq)
        (Inv-update_status s' j (before ++ rest) s' (Inv-requeue l before t u rest s' e refl v q))

  -- Every call keeps the invariant.
  Step-Inv : {l m : Life S} → Step ops l m → Inv ops l → Inv ops m
  Step-Inv (adds l c q) v = Inv-adds ops l c q v
  Step-Inv (asks l) v = Inv-asks ops l v
  Step-Inv (runs l before t rest o b e h) v = Inv-runs l before t rest o b e h v
  Step-Inv (unblocks l b) v = Inv-unblocks l b v
  Step-Inv (clears l) v = Inv-clears l v
  Step-Inv (others l s) v = record {
    unique = v.unique;
    known = v.known;
    copies = v.copies;
    quiet = v.quiet;
    matched = v.matched;
    usual = v.usual;
  }

  pub Reach-Inv : (ts : TimeStep) (s : S) {l : Life S} → Reach ops (born ts s) l → Inv ops l
  Reach-Inv ts s here = Inv-born ops ts s
  Reach-Inv ts s (next r st) = Step-Inv st (Reach-Inv ts s r)
