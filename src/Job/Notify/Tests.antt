-- ===== src/Job/Notify/Tests.antt =====
-- Two time steps, of which one waits for the other, or each for the other.
use cxsom.Prelude.{
  ℕ, zero, suc, ◌≡◌, refl, Bool, not, true, false, none, if◌then◌else◌, ◌==◌, [], ◌∷◌, Option,
  ◌>>=◌, ◌++◌, find, erase, arith, ap, ◌∙◌,
}
use cxsom.Symbol.{TimeStep, time_step_Eq, time_step_eq_iff, name_Eq}
use cxsom.Data.{Availability}
use cxsom.Update.{Status}
use cxsom.Update
use cxsom.TimeStep.{
  Updates, Instance, make, notify_unblock, update_status, busy_unbounds_found, scan_queue, settle,
  set_all_ready,
}
use cxsom.TimeStep
use cxsom.Job.Notify.{Board, assign, blockees_of, unblock, unblock_all, notify_done, ref_Eq}
use cxsom.Job.Notify.Ending.{Ends, IsRanked, unblock_all-done, notify_done-Ends}

-- Updates that have nothing to do.
abbrev idle : Updates Unit
idle = record {
  who = λ n. record { variable = record { timeline = "main"; name = "x" }; at = 0 };
  args_in = λ n. [];
  availability = λ s i. Availability.ready;
  blockers_range = λ s n. [];
  set_ready = λ n s. s;
  sync_arguments = λ n s. s;
  set_is_init = λ n b s. s;
  exec = λ n s. (Update.Status.done, s);
}

abbrev step_at : ℕ → TimeStep
step_at n = record { timeline = "main"; at = n }

-- The time step at 1 waits for the one at 0.
abbrev waiting : Board Unit
waiting = record {
  blockees = (step_at 0, 1 ∷ []) ∷ [];
  terminated_ts = [];
  at_ref = λ r.
      if r == 0 then make (step_at 0) else record (make (step_at 1)) { blockers = step_at 0 ∷ [] };
  store = tt;
}

abbrev rank : TimeStep → ℕ
rank ts = if ts.at == 0 then 1 else 0

waiting-IsRanked : IsRanked idle rank waiting
unfolding find
waiting-IsRanked me = ground (arith, time_step_eq_iff (step_at 0) me)

notify_done-Ends_example :
    Ends idle (step_at 0) (1 ∷ []) waiting (notify_done idle 2 (step_at 0) waiting)
unfolding find
notify_done-Ends_example =
    notify_done-Ends idle rank 2 (step_at 0) waiting waiting-IsRanked (omega arith)

-- Two time steps that are done, and each of which waits for the other, as it may be when an update is
-- added to a time step that was done: blockees are never taken away.
abbrev ref : Bool → ℕ
ref b = if b then 1 else 0

abbrev ended : Bool → Instance
ended b = record (make (step_at (ref b))) { status = TimeStep.Status.done }

record IsMutual (s : Board Unit) : Type 0 where
  waits : (b : Bool) → blockees_of (step_at (ref b)) s.blockees ≡ ref (not b) ∷ []
  steps : (b : Bool) → s.at_ref (ref b) ≡ ended b

-- Such a board.
pair-IsMutual : IsMutual (record {
  blockees = (step_at 0, 1 ∷ []) ∷ (step_at 1, 0 ∷ []) ∷ [];
  terminated_ts = [];
  at_ref = λ r. ended (r == 1);
  store = tt;
})
unfolding find
pair-IsMutual = record {
  waits = λ b.
      ground
        (arith, time_step_eq_iff (step_at 1) (step_at 0), time_step_eq_iff (step_at 0) (step_at 1));
  steps = λ b. ground arith;
}

unblock-ended :
    (b : Bool) (s : Board Unit)
    → s.at_ref (ref (not b)) ≡ ended (not b)
    → unblock idle (step_at (ref b)) (ref (not b)) s
      ≡ (true, assign (ref (not b)) (ended (not b)) s)
unfolding unblock notify_unblock update_status busy_unbounds_found scan_queue settle set_all_ready
    erase
unblock-ended b s e = rw e (elim b [ true ↦ refl | false ↦ refl ])

-- `notify_done` never ends then, whatever the fuel.
notify_done-pair :
    (n : ℕ) (b : Bool) (s : Board Unit) → IsMutual s → notify_done idle n (step_at (ref b)) s ≡ none
unfolding notify_done
notify_done-pair zero b s h = refl
notify_done-pair (suc n) b s h =
    let me = step_at (ref b) in
    let r = ref (not b) in
    let t : Board Unit = record s { terminated_ts = s.terminated_ts ++ me ∷ [] } in
    let a : Board Unit = assign r (ended (not b)) t in
    let u = unblock-ended b t (h.steps (not b)) in
    let l : IsMutual a = record { waits = h.waits; steps = λ c. ground (arith, h.steps c) } in
    let again : Board Unit → Option (Board Unit) = λ x. notify_done idle n (x.at_ref r).who x in
    let more = unblock_all idle (notify_done idle n) me [] in
    let stop : again a ≡ none = rw (l.steps (not b)) (notify_done-pair n (not b) a l) in
    ap (λ rs. unblock_all idle (notify_done idle n) me rs t) (h.waits b)
    ∙ unblock_all-done idle (notify_done idle n) me r [] t (ap (λ p. p.0) u)
    ∙ ap (λ p. again p.1 >>= more) u
    ∙ ap (λ o. o >>= more) stop
