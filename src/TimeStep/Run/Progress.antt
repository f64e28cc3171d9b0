-- ===== src/TimeStep/Run/Progress.antt =====
-- Which jobs a time step hands out, and when it hands out some.
use mathlib.Core.List.{append-nil}
use cxsom.Prelude.{
  ◌+◌, ◌≡◌, ap, ◌≢◌, ◌⊎◌, refl, Bool, true, false, List, [], ◌∷◌, ◌++◌, arith, count, length,
  length-append, ◌<◌, All, All-append, inl, inr,
}
use cxsom.Symbol.{Variable}
use cxsom.TimeStep.{
  Status, Queue, Content, Updates, Instance, scan_content, scan_queue, busy_unbounds_found,
  check_unbound, clear_blocking_info,
}
use cxsom.TimeStep.Settling.{Settled, scan_queue-found}
use cxsom.TimeStep.Run.{mark, jobs_of, hand_out, get_jobs}

abbrev pub is_idle : Content → Bool
is_idle c = c.no_processing

abbrev pub IsIdle : Content → Type 0
IsIdle c = is_idle c ≡ true

jobs_of-mark : (i : Instance) (q : Queue) (cs : List Content) → jobs_of i q (mark cs) ≡ []
unfolding jobs_of mark
jobs_of-mark i q [] = refl
jobs_of-mark i q (c ∷ cs) = ground (arith, jobs_of-mark i q cs)

length-jobs_of :
    (i : Instance) (q : Queue) (cs : List Content) → length (jobs_of i q cs) ≡ count is_idle cs
unfolding jobs_of
length-jobs_of i q [] = refl
length-jobs_of i q (c ∷ cs) = ground (arith, length-jobs_of i q cs)

jobs_of-ne-nil :
    (i : Instance) (q : Queue) (cs : List Content) → All IsIdle cs → cs ≢ [] → jobs_of i q cs ≢ []
unfolding jobs_of
jobs_of-ne-nil i q [] h n e = n refl
jobs_of-ne-nil i q (c ∷ cs) h n e = ground arith

hand_out-progress :
    (i : Instance)
    → (i.status ≡ Status.relaxing) ⊎ (i.status ≡ Status.checking)
    → Settled i.status i
    → All IsIdle i.unstable
    → All IsIdle i.stable
    → (hand_out i).found ≡ true
unfolding hand_out
hand_out-progress i h v u w =
    ground (
      arith,
      jobs_of-ne-nil i Queue.unstable i.unstable u,
      jobs_of-ne-nil i Queue.stable i.stable w,
    )

hand_out-relaxing :
    (i : Instance)
    → i.status ≡ Status.relaxing
    → All IsIdle i.unstable
    → All IsIdle i.stable
    → 0 < length i.unstable + length i.stable
    → (hand_out i).found ≡ true
unfolding hand_out
hand_out-relaxing i r u w h =
    grind (
      arith,
      jobs_of-ne-nil i Queue.unstable i.unstable u,
      jobs_of-ne-nil i Queue.stable i.stable w,
    )

hand_out-hand_out : (i : Instance) → (hand_out (hand_out i).self).tasks ≡ []
unfolding hand_out
hand_out-hand_out i = ground (
  arith,
  jobs_of-mark (hand_out i).self Queue.unstable i.unstable,
  jobs_of-mark (hand_out i).self Queue.stable i.stable,
)

hand_out-rest :
    (i : Instance) → ((hand_out i).self.fresh ≡ i.fresh) × ((hand_out i).self.status ≡ i.status)
unfolding hand_out
hand_out-rest i = ground arith

hand_out-unbound :
    (i : Instance)
    → i.status ≡ Status.unbound
    → hand_out i ≡ record { found = false; tasks = []; self = i }
unfolding hand_out
hand_out-unbound i h = ground arith

module _ {S : Type 0} (ops : Updates S) where
  -- With an empty `New` queue `check_unbound` changes nothing.
  check_unbound-nil : (s : S) (i : Instance) → i.fresh ≡ [] → check_unbound ops s i ≡ i
  unfolding check_unbound busy_unbounds_found scan_queue
  check_unbound-nil s i h = ground (arith, append-nil i.unstable)

  -- After `check_unbound` the time step is unbound, or its `New` queue is empty.
  check_unbound-cases :
      (s : S) (i : Instance)
      → ((check_unbound ops s i).status ≡ Status.unbound) ⊎ ((check_unbound ops s i).fresh ≡ [])
  unfolding check_unbound busy_unbounds_found
  check_unbound-cases s i =
      ground (arith, scan_queue-found ops s i.variables i.fresh i.unbounds_ready)

  check_unbound-unbound :
      (s : S) (i : Instance)
      → i.status ≡ Status.unbound
      → (check_unbound ops s i).status ≡ Status.unbound
  unfolding check_unbound busy_unbounds_found
  check_unbound-unbound s i h = ground arith

  -- A time step whose settled status is `Relaxing` or `Checking`, and whose unstable and stable
  -- updates are all idle, hands out a job.
  pub get_jobs-progress :
      (s : S) (i : Instance)
      → (i.status ≡ Status.relaxing) ⊎ (i.status ≡ Status.checking)
      → Settled i.status i
      → All IsIdle i.unstable
      → All IsIdle i.stable
      → (get_jobs ops s i).found ≡ true
  unfolding get_jobs
  get_jobs-progress s i h v u w =
      rw (check_unbound-nil s i (ground arith)) (hand_out-progress i h v u w)

  -- After a call of `get_jobs` a second call, with the same state of the updates, hands out nothing.
  pub get_jobs-get_jobs :
      (s : S) (i : Instance) → (get_jobs ops s (get_jobs ops s i).self).tasks ≡ []
  unfolding get_jobs
  get_jobs-get_jobs s i = elim (check_unbound-cases s i) [
    | inl b ↦
        ap (λ r. r.tasks)
          (hand_out-unbound _
            (check_unbound-unbound s _ (rw ((hand_out-rest (check_unbound ops s i)).1, b))))
    | inr e ↦
        rw
          (check_unbound-nil s (hand_out (check_unbound ops s i)).self
            (rw ((hand_out-rest (check_unbound ops s i)).0, e)))
          (hand_out-hand_out (check_unbound ops s i))
  ]

  -- The status `Unbound` is sticky for `get_jobs`: whatever the unbound variables have become, it
  -- hands out nothing and the status stays.
  pub get_jobs-unbound :
      (s : S) (i : Instance)
      → i.status ≡ Status.unbound
      → ((get_jobs ops s i).tasks ≡ []) × ((get_jobs ops s i).self.status ≡ Status.unbound)
  unfolding get_jobs
  get_jobs-unbound s i h =
      ground (arith, hand_out-unbound (check_unbound ops s i), check_unbound-unbound s i h)

  scan_queue-moved :
      (s : S) (vars : List Variable) (cs : List Content) (known : List Variable)
      → let r = scan_queue ops s vars cs known in r.found ≡ false → (r.moved ≡ cs) × (r.kept ≡ [])
  unfolding scan_queue
  scan_queue-moved s vars [] known h = ground arith
  scan_queue-moved s vars (c ∷ cs) known h =
      ground (arith, scan_queue-moved s vars cs (scan_content ops s vars c known).known)

  -- `clear_blocking_info` wakes a time step up, from any status: if no unbound variable is busy after
  -- it, some update is queued outside `Confirmed` and all of these are idle, then `get_jobs` hands
  -- out a job.
  pub get_jobs-clear_blocking_info :
      (s : S) (i : Instance)
      → let (j, s') = clear_blocking_info ops s i in
        (scan_queue ops s' i.variables i.fresh i.unbounds_ready).found ≡ false
        → All IsIdle i.unstable
        → All IsIdle i.impossible
        → All IsIdle i.fresh
        → All IsIdle i.stable
        → 0 < length i.unstable + length i.impossible + length i.fresh + length i.stable
        → (get_jobs ops s' j).found ≡ true
  unfolding get_jobs clear_blocking_info check_unbound busy_unbounds_found
  get_jobs-clear_blocking_info s i f a b c d h =
      let s' = (clear_blocking_info ops s i).1 in
      let r = scan_queue ops s' i.variables i.fresh i.unbounds_ready in
      let front = i.unstable ++ i.impossible in
      let moved : r.moved ≡ i.fresh =
        (scan_queue-moved s' i.variables i.fresh i.unbounds_ready f).0 in
      let idle : All IsIdle (front ++ r.moved) =
        rw moved
          (All-append IsIdle front i.fresh (All-append IsIdle i.unstable i.impossible a b) c) in
      rw f (
        hand_out-relaxing _ refl idle d (
          omega (
            arith,
            length-append front r.moved,
            length-append i.unstable i.impossible,
            ap length moved,
          )))
