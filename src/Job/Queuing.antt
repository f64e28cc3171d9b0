-- ===== src/Job/Queuing.antt =====
-- cxsom/src/cxsomJobs.hpp: the realization of the patterns puts updates in the queues of the time steps.
use cxsom.Prelude.{
  ℕ, ◌≡◌, String, Bool, true, false, Option, none, some, List, [], ◌∷◌, find, is_empty, find-store,
  arith, Option-cases, Bool-cases, inl, inr, ◌⊎◌, count, get_elem?, if_split,
}
use cxsom.Symbol.{Variable, TimeStep, name_Eq, time_step_of, time_step_Eq, time_step_eq_iff}
use cxsom.Symbol
use cxsom.Job.{Update, UpdatePattern, update_at}
use cxsom.Job.Offsets.{is_some}
use cxsom.Job.Center.{
  Steps, Center, check_and_get, put_update, instance_of, feasible, earliest, realize_entry,
  unprotected_realize, realize_all, unprotected_realize_patterns,
}
use cxsom.Job.Realizing.{is_before}
use cxsom.Job.Opening.{Laws, holds, IsPlaced, found, realize_patterns-holds}

-- `queued` says that an update of the instance waits in a time step: one waits there as soon as an
-- update that is added makes the time step have an instance, and adding others keeps it there. A new
-- time step has no instance.
pub record Queuing {P S : Type 0} (steps : Steps P S) : Type 0 where
  pub queued : Symbol.Instance → S → Bool
  pub fresh : (i : Symbol.Instance) (k : TimeStep) → steps.has_instance i (steps.make k) ≡ false
  pub added :
      (x : Update P) (i : Symbol.Instance) (s : S)
      → steps.has_instance i s ≡ false
      → steps.has_instance i (steps.add_update x s) ≡ true
      → queued i (steps.add_update x s) ≡ true
  pub kept :
      (x : Update P) (i : Symbol.Instance) (s : S)
      → queued i s ≡ true
      → queued i (steps.add_update x s) ≡ true

module _ {P S : Type 0} (steps : Steps P S) (q : Queuing steps) where
  abbrev pub queued_in : Symbol.Instance → Option S → Bool
  queued_in i none = false
  queued_in i (some s) = q.queued i s

  -- An update of the instance waits in its time step.
  abbrev pub waits : Symbol.Instance → Center P S → Bool
  waits i c = queued_in i (find (time_step_of i) c.timesteps)

  -- If the instance is in its time step, an update of it waits there.
  abbrev IsSound : Symbol.Instance → Center P S → Type 0
  IsSound i c = holds steps i c ≡ true → waits i c ≡ true

module _ {P S : Type 0} (steps : Steps P S) (history_length : Variable → ℕ) (laws : Laws steps)
    (q : Queuing steps) where
  check_and_get-IsSound :
      (k : TimeStep) (i : Symbol.Instance) (c : Center P S)
      → IsSound steps q i c
      → IsSound steps q i (check_and_get steps history_length k c).1
  unfolding check_and_get
  check_and_get-IsSound k i c v h = elim (Option-cases (find k c.timesteps)) [
    | inl e ↦ ground (
      arith,
      find-store k (time_step_of i) (steps.make k) c.timesteps,
      time_step_eq_iff k (time_step_of i),
      q.fresh i k,
    )
    | inr (b, e) ↦ ground arith
  ]

  put_update-IsSound :
      (o : Option (Update P)) (k : TimeStep) (s : S) (i : Symbol.Instance) (c : Center P S)
      → find k c.timesteps ≡ some s
      → IsSound steps q i c
      → IsSound steps q i (put_update steps history_length o k s c)
  unfolding put_update
  put_update-IsSound none k s i c e v h = v h
  put_update-IsSound (some x) k s i c e v h = ground (
    arith,
    find-store k (time_step_of i) (steps.add_update x s) c.timesteps,
    time_step_eq_iff k (time_step_of i),
    q.added x i s,
    q.kept x i s,
  )

  realize-IsSound :
      (u : UpdatePattern P) (first : ℕ) (i : Symbol.Instance) (c : Center P S)
      → IsSound steps q i c
      → IsSound steps q i (unprotected_realize steps history_length u first c)
  unfolding unprotected_realize
  realize-IsSound u first i c v h =
      let k = time_step_of (instance_of steps history_length u) in
      let (s, c') = check_and_get steps history_length k c in
      ground (
        arith,
        v,
        check_and_get-IsSound k i c v,
        put_update-IsSound (update_at u (history_length u.res)) k s i c'
            (found steps history_length laws k c) (check_and_get-IsSound k i c v),
      )

  realize_entry-IsSound :
      (o : Option ℕ) (u : UpdatePattern P) (i : Symbol.Instance) (c : Center P S)
      → IsSound steps q i c
      → IsSound steps q i (realize_entry steps history_length o u c)
  unfolding realize_entry
  realize_entry-IsSound none u i c v = v
  realize_entry-IsSound (some k) u i c v = realize-IsSound u k i c v

  realize_all-IsSound :
      (m : List (String × ℕ)) (ps : List (Variable × UpdatePattern P)) (i : Symbol.Instance)
      (c : Center P S)
      → IsSound steps q i c
      → IsSound steps q i (realize_all steps history_length m ps c)
  unfolding realize_all
  realize_all-IsSound m [] i c v = v
  realize_all-IsSound m ((w, u) ∷ rest) i c v =
      realize_all-IsSound m rest i (realize_entry steps history_length (find w.timeline m) u c)
        (realize_entry-IsSound (find w.timeline m) u i c v)

  patterns-IsSound :
      (i : Symbol.Instance) (c : Center P S)
      → IsSound steps q i c
      → IsSound steps q i (unprotected_realize_patterns steps history_length c)
  unfolding unprotected_realize_patterns
  patterns-IsSound i c v =
      let m = earliest steps history_length c.patterns [] in
      if_split (IsSound steps q i) (is_empty m) (λ _. v)
        (λ _. realize_all-IsSound m c.patterns i c v)

  -- Time steps that keep the updates of their date that are added to them, and in which an update waits
  -- as soon as it makes them have an instance; each stands under its own name. For a pattern that is
  -- feasible, that `at` can realize, and whose timeline has no feasible pattern with an earlier next
  -- date: after the realization of the patterns there is a time step for the instance that the
  -- pattern computes next, which answers that it has the instance; and an update of the instance
  -- waits in it, unless it answered so before.
  pub realize_patterns-waits :
      (c : Center P S) (n : ℕ) (v : Variable) (u : UpdatePattern P)
      → IsPlaced steps c
      → get_elem? c.patterns n ≡ some (v, u)
      → count (is_before steps history_length v.timeline (history_length u.res)) c.patterns ≡ 0
      → feasible steps history_length u ≡ true
      → is_some (update_at u (history_length u.res)) ≡ true
      → let i = instance_of steps history_length u in
        let c' = unprotected_realize_patterns steps history_length c in
        (holds steps i c' ≡ true) × ((waits steps q i c' ≡ true) ⊎ (holds steps i c ≡ true))
  realize_patterns-waits c n v u p e b f a =
      let i = instance_of steps history_length u in
      let h = realize_patterns-holds steps history_length laws c n v u p e b f a in
      elim (Bool-cases (holds steps i c)) [
        | inl y ↦ (h, inr y)
        | inr x ↦ (h, inl (patterns-IsSound i c (λ y. absurd (ground (arith, x, y))) h))
      ]
