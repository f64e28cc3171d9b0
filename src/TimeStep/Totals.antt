-- ===== src/TimeStep/Totals.antt =====
-- How many queued contents of a time step pass a test, over its five queues.
use cxsom.Prelude.{ℕ, ◌+◌, ◌≡◌, refl, Bool, false, List, [], ◌∷◌, arith, count, count-append, erase}
use cxsom.Symbol.{Variable, TimeStep, time_step_Eq}
use cxsom.TimeStep.{
  Content, Updates, Instance, scan_content, scan_queue, busy_unbounds_found, settle, update_status,
  clear_blocking_info, notify_unblock,
}

abbrev pub total : (Content → Bool) → Instance → ℕ
total p i =
    count p i.unstable
    + count p i.impossible
    + count p i.stable
    + count p i.confirmed
    + count p i.fresh

module _ {S : Type 0} (ops : Updates S) (p : Content → Bool) where
  -- The scan splits the queue.
  pub count-scan_queue :
      (s : S) (vars : List Variable) (cs : List Content) (known : List Variable)
      → let r = scan_queue ops s vars cs known in count p r.kept + count p r.moved ≡ count p cs
  unfolding scan_queue
  count-scan_queue s vars [] known = refl
  count-scan_queue s vars (c ∷ cs) known =
      ground (arith, count-scan_queue s vars cs (scan_content ops s vars c known).known)

  pub total-busy_unbounds_found :
      (s : S) (i : Instance) → total p (busy_unbounds_found ops s i).1 ≡ total p i
  unfolding busy_unbounds_found
  total-busy_unbounds_found s i = omega (
    arith,
    count-scan_queue s i.variables i.fresh i.unbounds_ready,
    count-append p i.unstable (scan_queue ops s i.variables i.fresh i.unbounds_ready).moved,
  )

  -- Unless the time step is done, settling only moves contents between queues.
  pub total-settle :
      (s : S) (i : Instance)
      → (settle ops s i).notified ≡ false
      → total p (settle ops s i).self ≡ total p i
  unfolding settle
  total-settle s i h =
      ground (arith, count-append p i.unstable i.impossible, count-append p i.stable i.confirmed)

  pub total-update_status :
      (s : S) (i : Instance)
      → (update_status ops s i).notified ≡ false
      → total p (update_status ops s i).self ≡ total p i
  unfolding update_status
  total-update_status s i h =
      ground (arith, total-busy_unbounds_found s i, total-settle s (busy_unbounds_found ops s i).1)

  pub total-clear_blocking_info :
      (s : S) (i : Instance) → total p (clear_blocking_info ops s i).0 ≡ total p i
  unfolding clear_blocking_info
  total-clear_blocking_info s i = omega (arith, count-append p i.unstable i.impossible)

  pub total-notify_unblock :
      (b : TimeStep) (s : S) (i : Instance)
      → (notify_unblock ops b s i).notified ≡ false
      → total p (notify_unblock ops b s i).self ≡ total p i
  unfolding notify_unblock
  total-notify_unblock b s i h =
      ground (arith, total-update_status s (record i { blockers = erase b i.blockers }))
