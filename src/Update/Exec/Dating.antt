-- ===== src/Update/Exec/Dating.antt =====
-- The dates: how an execution sees that its in-arguments have changed, and what date it gives.
use cxsom.Prelude.{
  ℕ, ◌≤◌, ◌≡◌, ◌≢◌, refl, sym, ap, ◌∙◌, subst, true, false, none, List, [], ◌∷◌, arith, is_empty,
  if_split, All, All-map,
}
use cxsom.Symbol
use cxsom.Symbol.{instance_Eq, instance_eq_iff}
use cxsom.Data.{Availability, is_ready}
use cxsom.Data.Instance.{Cell, Files, Memory}
use cxsom.Update.{
  Status, InArg, Res, Base, Hooks, u32, notify_datation, note_in_arg, init_in_arg_date,
}
use cxsom.Update.Exec.{
  Run, read_ins, write_result, compute, inspect_outs, exec, after_ins, skips, skipped, after_outs,
  aborted, started,
}
use cxsom.Update.Exec.Result.{read_ins-rest, exec-Effect}

-- An argument that has just been notified sees no change in the same notification.
notify-notify :
    (a : InArg) (s : Availability) (d : ℕ)
    → (notify_datation (notify_datation a s d) s d).update ≡ none
unfolding notify_datation
notify-notify a s d = ground arith

notify-rest :
    (a : InArg) (s : Availability) (d : ℕ)
    → let b = notify_datation a s d in (b.who ≡ a.who) × (b.availability ≡ s) × (d ≤ b.date)
unfolding notify_datation
notify-rest a s d = ground arith

note_in_arg-none :
    (r : Res) (a : InArg)
    → a.update ≡ none
    → (note_in_arg r a).max_in_args_date ≡ r.max_in_args_date
unfolding note_in_arg
note_in_arg-none r a h = ground arith

module _ {F D : Type 0} (hooks : Hooks F D) where
  -- Arguments read twice, with the same cells, give no date the second time.
  read_ins-read_ins :
      (cell cell' : Symbol.Instance → Cell D) (args : List InArg) (r r' : Res) (f f' : F)
      → All (λ a. cell' a.who ≡ cell a.who) args
      → let again = read_ins hooks cell' (read_ins hooks cell args r f).args r' f' in
        again.result.max_in_args_date ≡ r'.max_in_args_date
  unfolding read_ins note_in_arg
  read_ins-read_ins cell cell' [] r r' f f' h = refl
  read_ins-read_ins cell cell' (a ∷ rest) r r' f f' h =
      let c = cell a.who in
      let b = notify_datation a c.status (u32 c.datation) in
      let c' = cell' b.who in
      let b' = notify_datation b c'.status (u32 c'.datation) in
      let same : c' ≡ c = ap cell' (notify-rest a c.status (u32 c.datation)).0 ∙ h.0 in
      let quiet : b'.update ≡ none = rw same (notify-notify a c.status (u32 c.datation)) in
      read_ins-read_ins cell cell' rest (note_in_arg r b) (note_in_arg r' b')
        (hooks.on_read_in_arg a.who a.arg_number c.content f)
        (hooks.on_read_in_arg b.who b.arg_number c'.content f') h.1
      ∙ note_in_arg-none r' b' quiet

  read_ins-empty :
      (cell : Symbol.Instance → Cell D) (args : List InArg) (r : Res) (f : F)
      → is_empty (read_ins hooks cell args r f).args ≡ is_empty args
  unfolding read_ins
  read_ins-empty cell [] r f = refl
  read_ins-empty cell (a ∷ rest) r f = refl

  read_ins-All :
      (cell : Symbol.Instance → Cell D) (P : Symbol.Instance → Type 0) (args : List InArg) (r : Res)
      (f : F)
      → All (λ a. P a.who) args
      → All (λ a. P a.who) (read_ins hooks cell args r f).args
  unfolding read_ins
  read_ins-All cell P [] r f h = tt
  read_ins-All cell P (a ∷ rest) r f h =
      let c = cell a.who in
      (
        subst P (sym (notify-rest a c.status (u32 c.datation)).0) h.0,
        read_ins-All cell P rest _ _ h.1,
      )

  module _ {M : Type 0} (files : Files D M) where
    -- A usual update that returns `Updated` has been updated once, by a writing.
    write_result-updated :
        (u : Base F) (m : Memory D M)
        → u.is_init ≡ false
        → let r = write_result hooks files u m in
          r.status ≡ Status.updated
          → (r.self.result.updated_once ≡ true)
            × (r.self.out_ok ≡ u.out_ok)
            × (r.self.args_in ≡ u.args_in)
            × (r.self.is_init ≡ false)
            × (r.self.result.who ≡ u.result.who)
    unfolding write_result
    write_result-updated u m i h = ground arith

    -- The traces that an execution with the status `Updated` leaves in the update.
    abbrev Refreshed : Base F → Memory D M → Run F D M → Type 0
    Refreshed u m r =
        r.status ≡ Status.updated
        → (f : F) × (r.self.args_in
            ≡ (read_ins hooks m.cell u.args_in (init_in_arg_date u.result) f).args)
          × (r.self.result.updated_once ≡ true)
          × (r.self.out_ok ≡ true)
          × (r.self.is_init ≡ false)
          × (r.self.result.who ≡ u.result.who)

    compute-Refreshed :
        (u : Base F) (m : Memory D M)
        → u.is_init ≡ false
        → u.out_ok ≡ true
        → Refreshed u m (compute hooks files u m)
    unfolding compute
    compute-Refreshed u m i o =
        if_split (Refreshed u m) (skips hooks files u m) {x = skipped hooks files u m}
          (λ _ h. absurd (ground arith))
          (λ _ h.
            let v = after_ins hooks files u m in
            let (once, out, ins, init, who) = write_result-updated v m i h in
            (
              u.self,
              ins,
              once,
              out ∙ o,
              init,
              who ∙ (read_ins-rest hooks m.cell u.args_in (init_in_arg_date u.result) u.self).0,
            ))

    exec-Refreshed :
        (u : Base F) (m : Memory D M) → u.is_init ≡ false → Refreshed u m (exec hooks files u m)
    unfolding exec inspect_outs
    exec-Refreshed u m i =
        let v = started hooks files u in
        if_split (Refreshed u m) (is_ready (m.cell u.result.who).status)
          {x = record { status = Status.done; self = u; memory = m }} (λ _ h. absurd (ground arith))
          (λ _.
            if_split (Refreshed u m) u.out_ok (λ o. compute-Refreshed v m i o)
              (λ _.
                if_split (Refreshed u m) (after_outs hooks files v m).out_ok
                  {y = aborted hooks files v m}
                  (λ o. compute-Refreshed (after_outs hooks files v m) m i o)
                  (λ _ h. absurd (ground arith))))

    -- An update with its out-arguments read, whose in-arguments show no new date, only looks.
    exec-skips :
        (u : Base F) (m : Memory D M)
        → (m.cell u.result.who).status ≢ Availability.ready
        → u.out_ok ≡ true
        → u.is_init ≡ false
        → skips hooks files (started hooks files u) m ≡ true
        → let r = exec hooks files u m in (r.status ≡ Status.up_to_date) × (r.memory ≡ m)
    unfolding exec inspect_outs compute
    exec-skips u m n o i k = ground arith

    -- Convergence is seen: after a usual update has returned `Updated`, a second execution, with no
    -- other change of the memory in between, returns `UpToDate` and computes nothing. The update has
    -- in-arguments, and its result is none of them.
    pub exec-exec :
        (u : Base F) (m : Memory D M)
        → u.is_init ≡ false
        → is_empty u.args_in ≡ false
        → All (λ a. a.who ≢ u.result.who) u.args_in
        → let r = exec hooks files u m in
          r.status ≡ Status.updated
          → let again = exec hooks files r.self r.memory in
            (again.status ≡ Status.up_to_date) × (again.memory ≡ r.memory)
    exec-exec u m i e n h =
        let r = exec hooks files u m in
        let (f, ins, once, out, init, who) = exec-Refreshed u m i h in
        let effect = exec-Effect files hooks u m in
        let v = started hooks files r.self in
        let quiet : (after_ins hooks files v r.memory).result.max_in_args_date ≡ none = rw ins (
          read_ins-read_ins m.cell r.memory.cell u.args_in _ _ f _
            (All-map (λ a k. effect.others a.who k) u.args_in n)) in
        let filled : is_empty r.self.args_in ≡ false =
          ap is_empty ins ∙ read_ins-empty m.cell u.args_in (init_in_arg_date u.result) f ∙ e in
        let kept : (after_ins hooks files v r.memory).result.updated_once ≡ true =
          (read_ins-rest hooks r.memory.cell r.self.args_in (init_in_arg_date r.self.result)
            v.self).1
          ∙ once in
        exec-skips r.self r.memory
          (λ d. absurd (
            ground (
              arith,
              effect.ready_iff.1 (subst (λ w. (r.memory.cell w).status ≡ Availability.ready) who d),
            )))
          out init (ground (arith, filled, quiet, kept))
