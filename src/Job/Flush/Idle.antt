-- ===== src/Job/Flush/Idle.antt =====
-- cxsom/src/cxsomJobs.hpp: when `get_one` finds no job.
use cxsom.Prelude.{
  ℕ, ◌≡◌, refl, Bool, true, ◌||◌, none, List, [], ◌∷◌, ◌++◌, is_empty, arith, All, subst,
  Bool-cases, inl, inr,
}
use cxsom.Symbol.{Variable, TimeStep}
use cxsom.Job.Center.{Steps, Center, clean, unprotected_realize_patterns}
use cxsom.Job.Flush.{Jobs, ask_all, ask_center, ask_steps, ask_patterns, take_one, get_one}

module _ {P S J : Type 0} (steps : Steps P S) (history_length : Variable → ℕ)
    (get_jobs : S → S × List J) where
  -- A time step that gives no job.
  abbrev pub gives_none : TimeStep × S → Bool
  gives_none e = is_empty (get_jobs e.1).1

  append-nil-left : (xs ys : List J) → xs ++ ys ≡ [] → (is_empty xs ≡ true) × (ys ≡ [])
  append-nil-left [] ys h = (refl, h)
  append-nil-left (x ∷ xs) ys h = ground arith

  ask_all-none :
      (ts : List (TimeStep × S))
      → (ask_all steps history_length get_jobs ts).1 ≡ []
      → All (λ e. gives_none e ≡ true) ts
  unfolding ask_all
  ask_all-none [] h = tt
  ask_all-none ((k, s) ∷ rest) h =
      let (e, f) =
        append-nil-left (get_jobs s).1 (ask_all steps history_length get_jobs rest).1 h in
      (e, ask_all-none rest f)

  -- A time step that is done or gives no job.
  abbrev pub is_idle : TimeStep × S → Bool
  is_idle e = steps.is_done e.1 || gives_none e

  clean-idle :
      (ts : List (TimeStep × S))
      → All (λ e. gives_none e ≡ true) (clean steps history_length ts)
      → All (λ e. is_idle e ≡ true) ts
  unfolding clean
  clean-idle [] h = tt
  clean-idle ((k, s) ∷ rest) h = elim (Bool-cases (steps.is_done s)) [
    | inl e ↦ (rw e refl, clean-idle rest (ground arith))
    | inr e ↦
        let q : clean steps history_length ((k, s) ∷ rest)
            ≡ (k, s) ∷ clean steps history_length rest =
          ground arith in
        let (g, f) = subst (All (λ e. gives_none e ≡ true)) q h in
        (let g' : gives_none (k, s) ≡ true = g in ground (arith, g'), clean-idle rest f)
  ]

  is_empty-nil : (xs : List J) → is_empty xs ≡ true → xs ≡ []
  is_empty-nil [] h = refl
  is_empty-nil (x ∷ xs) h = ground arith

  ask_patterns-tasks :
      (r : Jobs P S J) → (ask_patterns steps history_length get_jobs r).tasks ≡ [] → r.tasks ≡ []
  unfolding ask_patterns
  ask_patterns-tasks r h = elim (Bool-cases (is_empty r.tasks)) [
    | inl e ↦ is_empty-nil r.tasks e
    | inr e ↦ ground arith
  ]

  ask_steps-tasks :
      (r : Jobs P S J)
      → (ask_steps steps history_length get_jobs r).tasks ≡ []
      → (ask_all steps history_length get_jobs (clean steps history_length r.center.timesteps)).1
        ≡ []
  unfolding ask_steps ask_center
  ask_steps-tasks r h = elim (Bool-cases (is_empty r.tasks)) [
    | inl e ↦ ground arith
    | inr e ↦ ground arith
  ]

  ask_center-none :
      (c : Center P S) (r : Jobs P S J)
      → (ask_center steps history_length get_jobs c r).tasks ≡ []
      → All (λ e. gives_none e ≡ true) c.timesteps
  unfolding ask_center
  ask_center-none c r h = ask_all-none c.timesteps h

  -- The second round asks the time steps after the realization of the patterns.
  ask_patterns-none :
      (r : Jobs P S J)
      → (ask_patterns steps history_length get_jobs r).tasks ≡ []
      → All
          (λ e. gives_none e ≡ true)
          (unprotected_realize_patterns steps history_length r.center).timesteps
  unfolding ask_patterns
  ask_patterns-none r h =
      let c = unprotected_realize_patterns steps history_length r.center in
      elim (Bool-cases (is_empty r.tasks)) [
        | inl e ↦ ask_center-none c r (ground (arith, e, h))
        | inr e ↦ absurd (ground (arith, e, h))
      ]

  take_one-none :
      (ts : List J) (r r' : Jobs P S J)
      → take_one steps history_length get_jobs ts r ≡ (none, r')
      → ts ≡ []
  unfolding take_one
  take_one-none [] r r' h = refl
  take_one-none (t ∷ ts) r r' h = ground arith

  -- When `get_one` finds no job, both rounds of questions were asked in vain: every time step of the
  -- centre is done or gives no job, and, once the first round is over and the patterns are realized,
  -- no time step of the centre gives a job, the new ones included.
  pub get_one-idle :
      (r r' : Jobs P S J)
      → get_one steps history_length get_jobs r ≡ (none, r')
      → All (λ e. is_idle e ≡ true) r.center.timesteps
        × All
            (λ e. gives_none e ≡ true)
            (unprotected_realize_patterns steps history_length
              (ask_steps steps history_length get_jobs r).center).timesteps
  unfolding get_one
  get_one-idle r r' h =
      let b = ask_steps steps history_length get_jobs r in
      let a = ask_patterns steps history_length get_jobs b in
      let n = take_one-none a.tasks a r' h in
      (
        clean-idle r.center.timesteps (
            ask_all-none (clean steps history_length r.center.timesteps)
              (ask_steps-tasks r (ask_patterns-tasks b n))),
        ask_patterns-none b n,
      )
