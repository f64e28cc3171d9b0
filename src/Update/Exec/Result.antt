-- ===== src/Update/Exec/Result.antt =====
-- What an execution does to the result, on every branch.
use cxsom.Prelude.{
  ◌≡◌, ◌≢◌, ◌↔◌, refl, ap, subst, Bool, true, false, ◌&&◌, ◌||◌, List, [], ◌∷◌, arith,
  if◌then◌else◌, if_split,
}
use cxsom.Symbol.{instance_Eq, instance_eq_iff}
use cxsom.Symbol
use cxsom.Data.{Availability, is_busy, is_ready}
use cxsom.Data.Instance.{Cell, Files, Memory, set}
use cxsom.Update.{
  Status, OutArg, InArg, Res, Base, Hooks, blockers, notify_datation, note_in_arg, u32,
  init_in_arg_date,
}
use cxsom.Update.Exec.{
  Run, read_outs, read_ins, write_result, compute, inspect_outs, exec, after_ins, skips, skipped,
  after_outs, aborted, started,
}

-- Every out-argument is ready in memory.
abbrev pub outs_ready : {D : Type 0} → (Symbol.Instance → Cell D) → List OutArg → Bool
outs_ready cell [] = true
outs_ready cell (a ∷ rest) = is_ready (cell a.who).status && outs_ready cell rest

abbrev is_nil {ℓ} : {A : Type ℓ} → List A → Bool
is_nil [] = true
is_nil (x ∷ xs) = false

module _ {F D : Type 0} (hooks : Hooks F D) where
  read_outs-ok :
      (cell : Symbol.Instance → Cell D) (args : List OutArg) (ok : Bool) (f : F)
      → (read_outs hooks cell args ok f).ok ≡ (ok && outs_ready cell args)
  unfolding read_outs
  read_outs-ok cell [] ok f = ground arith
  read_outs-ok cell (a ∷ rest) ok f = ground (
    arith,
    read_outs-ok cell rest (is_ready (cell a.who).status && ok) (
        if is_ready (cell a.who).status && ok
        then hooks.on_read_out_arg a.who a.arg_number (cell a.who).content f
        else f),
  )

  read_outs-blockers :
      (cell : Symbol.Instance → Cell D) (args : List OutArg) (ok : Bool) (f : F)
      → is_nil (blockers (read_outs hooks cell args ok f).args) ≡ outs_ready cell args
  unfolding read_outs blockers
  read_outs-blockers cell [] ok f = refl
  read_outs-blockers cell (a ∷ rest) ok f = ground (
    arith,
    read_outs-blockers cell rest (is_ready (cell a.who).status && ok) (
        if is_ready (cell a.who).status && ok
        then hooks.on_read_out_arg a.who a.arg_number (cell a.who).content f
        else f),
  )

  pub read_ins-rest :
      (cell : Symbol.Instance → Cell D) (args : List InArg) (r : Res) (f : F)
      → let i = read_ins hooks cell args r f in
        (i.result.who ≡ r.who) × (i.result.updated_once ≡ r.updated_once)
  unfolding read_ins note_in_arg
  read_ins-rest cell [] r f = (refl, refl)
  read_ins-rest cell (a ∷ rest) r f =
      let c = cell a.who in
      let a' = notify_datation a c.status (u32 c.datation) in
      read_ins-rest cell rest (note_in_arg r a')
        (hooks.on_read_in_arg a.who a.arg_number c.content f)

module _ {F D M : Type 0} (files : Files D M) where
  -- What a call may do to the memory, seen from the name of the result.
  pub record Effect (w : Symbol.Instance) (m : Memory D M) (r : Run F D M) : Type 0 where
    pub ready_iff : (r.status ≡ Status.done) ↔ ((r.memory.cell w).status ≡ Availability.ready)
    pub others : (v : Symbol.Instance) → v ≢ w → r.memory.cell v ≡ m.cell v
    pub filed : r.memory.files ≡ (
        if is_busy (m.cell w).status && is_ready (r.memory.cell w).status
        then files.declare_ready w (r.memory.cell w).content m.files
        else m.files)

  module _ (hooks : Hooks F D) where
    write_result-Effect :
        (u : Base F) (m : Memory D M)
        → is_ready (m.cell u.result.who).status ≡ false
        → Effect u.result.who m (write_result hooks files u m)
    unfolding write_result set
    write_result-Effect u m h = record {
      ready_iff = ground (arith, instance_eq_iff u.result.who u.result.who);
      others = λ v n. ground (arith, instance_eq_iff u.result.who v);
      filed = ground (arith, instance_eq_iff u.result.who u.result.who);
    }

    -- A call that returns early leaves the memory.
    untouched-Effect :
        (w : Symbol.Instance) (m : Memory D M) (r : Run F D M)
        → is_ready (m.cell w).status ≡ false
        → r.status ≢ Status.done
        → r.memory ≡ m
        → Effect w m r
    untouched-Effect w m r h n e = record {
      ready_iff = (λ d. absurd (n d), λ d. ground arith);
      others = λ v q. ap (λ x. x.cell v) e;
      filed = rw e (rw h (ground arith));
    }

    compute-Effect :
        (u : Base F) (m : Memory D M)
        → is_ready (m.cell u.result.who).status ≡ false
        → Effect u.result.who m (compute hooks files u m)
    unfolding compute
    compute-Effect u m h =
        let v = after_ins hooks files u m in
        let same = (read_ins-rest hooks m.cell u.args_in (init_in_arg_date u.result) u.self).0 in
        let written : Effect u.result.who m (write_result hooks files v m) =
          subst (λ w. Effect w m (write_result hooks files v m)) same
            (write_result-Effect v m (rw same h)) in
        if_split (Effect u.result.who m) (skips hooks files u m) {x = skipped hooks files u m}
          (λ _. untouched-Effect u.result.who m (skipped hooks files u m) h (ground arith) refl)
          (λ _. written)

    inspect_outs-Effect :
        (u : Base F) (m : Memory D M)
        → is_ready (m.cell u.result.who).status ≡ false
        → Effect u.result.who m (inspect_outs hooks files u m)
    unfolding inspect_outs
    inspect_outs-Effect u m h =
        if_split (Effect u.result.who m) u.out_ok (λ _. compute-Effect u m h)
          (λ _.
            if_split (Effect u.result.who m) (after_outs hooks files u m).out_ok
              (λ _. compute-Effect (after_outs hooks files u m) m h)
              (λ _.
                untouched-Effect u.result.who m (aborted hooks files u m) h (ground arith) refl))

    -- `operator()`, on every branch: `Done` is returned exactly when the result is ready after the
    -- call; no other instance changes; the content is declared ready to the file of the result exactly
    -- when the result passes from busy to ready.
    pub exec-Effect : (u : Base F) (m : Memory D M) → Effect u.result.who m (exec hooks files u m)
    unfolding exec
    exec-Effect u m =
        if_split (Effect u.result.who m) (is_ready (m.cell u.result.who).status)
          {x = record { status = Status.done; self = u; memory = m }}
          (λ e. record {
            ready_iff = (λ d. ground arith, λ d. refl);
            others = λ v q. refl;
            filed = ground arith;
          })
          (λ e. inspect_outs-Effect (started hooks files u) m e)

    write_result-status :
        (u : Base F) (m : Memory D M)
        → let r = write_result hooks files u m in
          (r.status ≢ Status.impossible)
          × (u.is_init ≡ true → r.status ≡ Status.updated)
          × (u.is_init ≡ true → (r.memory.cell u.result.who).status ≡ (m.cell u.result.who).status)
    unfolding write_result set
    write_result-status u m = (
      ground arith,
      λ i. ground arith,
      λ i. ground (arith, instance_eq_iff u.result.who u.result.who),
    )

    compute-ne-impossible :
        (u : Base F) (m : Memory D M) → (compute hooks files u m).status ≢ Status.impossible
    unfolding compute
    compute-ne-impossible u m =
        if_split (λ (r : Run F D M). r.status ≢ Status.impossible) (skips hooks files u m)
          {x = skipped hooks files u m} (λ _. ground arith)
          (λ _. (write_result-status (after_ins hooks files u m) m).0)

    compute-init :
        (u : Base F) (m : Memory D M)
        → u.is_init ≡ true
        → let r = compute hooks files u m in
          (r.status ≡ Status.updated)
          × ((r.memory.cell u.result.who).status ≡ (m.cell u.result.who).status)
    unfolding compute
    compute-init u m i =
        let v = after_ins hooks files u m in
        let same = (read_ins-rest hooks m.cell u.args_in (init_in_arg_date u.result) u.self).0 in
        let (_, st, cell) = write_result-status v m in
        if_split
          (λ (r : Run F D M).
            (r.status ≡ Status.updated)
            × ((r.memory.cell u.result.who).status ≡ (m.cell u.result.who).status))
          (skips hooks files u m) {x = skipped hooks files u m} (λ _. (ground arith, refl))
          (λ _. (
            st i,
            subst (λ w. ((write_result hooks files v m).memory.cell w).status ≡ (m.cell w).status)
                same (cell i),
          ))

    -- The out-arguments let the computation go on.
    abbrev pub passes : Base F → Memory D M → Bool
    passes u m = u.out_ok || outs_ready m.cell u.args_out

    pub after_outs-ok :
        (u : Base F) (m : Memory D M)
        → (after_outs hooks files u m).out_ok ≡ outs_ready m.cell u.args_out
    after_outs-ok u m = read_outs-ok hooks m.cell u.args_out true u.self

    -- What `Impossible` means: it is returned exactly when the result is busy, the out-arguments have
    -- not been read before, and one of them is not ready. Then the memory is left as it is, the
    -- out-arguments are to be read again, and there is a time step to wait for.
    pub exec-impossible :
        (u : Base F) (m : Memory D M)
        → let r = exec hooks files u m in
          ((r.status ≡ Status.impossible)
            ↔ ((is_ready (m.cell u.result.who).status ≡ false) × (passes u m ≡ false)))
          × ((r.status ≡ Status.impossible)
              → (r.memory ≡ m) × (r.self.out_ok ≡ false) × (blockers r.self.args_out ≢ []))
    unfolding exec inspect_outs
    exec-impossible u m =
        let v = started hooks files u in
        ground (
          arith,
          compute-ne-impossible v m,
          compute-ne-impossible (after_outs hooks files v m) m,
          after_outs-ok v m,
          read_outs-blockers hooks m.cell u.args_out true v.self,
        )

    -- An execution of an init update returns `Done` if the result is ready before, else `Updated` if
    -- its out-arguments let it go on, else `Impossible`; it never changes the availability of the
    -- result.
    pub exec-init :
        (u : Base F) (m : Memory D M)
        → u.is_init ≡ true
        → let r = exec hooks files u m in
          (r.status ≡ (
            if is_ready (m.cell u.result.who).status
            then Status.done
            else if passes u m
            then Status.updated
            else Status.impossible))
          × ((r.memory.cell u.result.who).status ≡ (m.cell u.result.who).status)
    unfolding exec inspect_outs
    exec-init u m i =
        let v = started hooks files u in
        ground (
          arith,
          compute-init v m i,
          compute-init (after_outs hooks files v m) m i,
          after_outs-ok v m,
        )
