-- ===== src/TimeStep/Run/Reports.antt =====
-- What a report leads to, by the status that is reported.
use cxsom.Prelude.{
  ◌≡◌, ◌≢◌, ◌⊎◌, true, some, List, [], ◌∷◌, ◌++◌, arith, sym, ◌∙◌, insert_all-ne-nil, inl, inr,
  Option-cases,
}
use cxsom.Symbol.{time_step_Eq}
use cxsom.Update
use cxsom.TimeStep.{
  Status, Instance, Task, Outcome, Updates, call, update_status, busy_unbounds_found, settle,
}
use cxsom.TimeStep.Run.{run_task, report, requeue, remove_update, var_name}

append-ne-nil {ℓ} : {A : Type ℓ} (xs ys : List A) → ys ≢ [] → xs ++ ys ≢ []
append-ne-nil [] ys h e = h e
append-ne-nil (x ∷ xs) ys h e = ground arith

module _ {S : Type 0} (ops : Updates S) where
  update_status-blocked :
      (s : S) (i : Instance)
      → i.impossible ≢ []
      → i.blockers ≢ []
      → let j = (update_status ops s i).self in
        (j.impossible ≡ i.impossible)
        × (j.blockers ≡ i.blockers)
        × (j.new_blockers ≡ i.new_blockers)
        × ((j.status ≡ Status.blocked) ⊎ (j.status ≡ Status.unbound))
  unfolding update_status busy_unbounds_found settle
  update_status-blocked s i h b = ground arith

  requeue-impossible :
      (s : S) (t : Task) (i : Instance) {j : Instance}
      → t.report ≡ Update.Status.impossible
      → ops.blockers_range s (call t.update) ≢ []
      → requeue ops s t i ≡ some j
      → (j.impossible ≡ i.impossible ++ t.update ∷ []) × (j.blockers ≢ []) × (j.new_blockers ≢ [])
  unfolding requeue
  requeue-impossible s t i r b h =
      let bs = ops.blockers_range s (call t.update) in
      ground (arith, insert_all-ne-nil bs i.blockers b, append-ne-nil i.new_blockers bs b)

  -- If every execution that returns `Impossible` leaves a blocker, then a task that returns it leaves
  -- its time step waiting.
  pub run_task-impossible :
      (s : S) (t : Task) (i : Instance) {o : Outcome S}
      → ((ops.exec (call t.update) s).0 ≡ Update.Status.impossible
          → ops.blockers_range (ops.exec (call t.update) s).1 (call t.update) ≢ [])
      → run_task ops s t i ≡ some (o, true)
      → (o.self.impossible
          ≡ (remove_update ops (var_name ops t.update) i).impossible ++ t.update ∷ [])
        × (o.self.blockers ≢ [])
        × (o.self.new_blockers ≢ [])
        × ((o.self.status ≡ Status.blocked) ⊎ (o.self.status ≡ Status.unbound))
  unfolding run_task report
  run_task-impossible s t i {o} b h =
      let (st, s') = ops.exec (call t.update) s in
      let u : Task = record t { report = st } in
      elim (Option-cases (requeue ops s' u (remove_update ops (var_name ops t.update) i))) [
        | inl e ↦ absurd (ground (arith))
        | inr (j, e) ↦
            let imp : st ≡ Update.Status.impossible = ground (arith) in
            let (a, c, d) =
              requeue-impossible s' u (remove_update ops (var_name ops t.update) i) imp (b imp) e in
            let n : j.impossible ≢ [] = λ e.
              append-ne-nil (remove_update ops (var_name ops t.update) i).impossible (t.update ∷ [])
                (λ f. cc) (sym a ∙ e) in
            ground (arith, a, c, d, update_status-blocked s' j n c)
      ]
