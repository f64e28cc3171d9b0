-- ===== src/Job/Notify/Clearing.antt =====
-- cxsom/src/cxsomJobs.hpp: `Center::clear_blocking_info`, on every time step of the centre.
use cxsom.Prelude.{ℕ, ◌≡◌, refl, List, [], ◌∷◌, All, arith}
use cxsom.Symbol.{time_step_Eq}
use cxsom.TimeStep.{Updates, Instance}
use cxsom.TimeStep
use cxsom.Job.Notify.{Board, assign, ref_Eq}

module _ {S : Type 0} (ops : Updates S) where
  -- The loop over `timesteps`, which are given by their addresses.
  unfoldable pub clear_all : List ℕ → Board S → Board S
  clear_all [] s = s
  clear_all (r ∷ rest) s =
      let (i, store) = TimeStep.clear_blocking_info ops s.store (s.at_ref r) in
      clear_all rest (assign r i (record s { store = store }))

  unfoldable pub clear_blocking_info : List ℕ → Board S → Board S
  clear_blocking_info timesteps s = clear_all timesteps (record s { blockees = [] })

  clear_all-kept :
      (r : ℕ) (rs : List ℕ) (s : Board S)
      → (s.at_ref r).blockers ≡ []
      → ((clear_all rs s).at_ref r).blockers ≡ []
  unfolding clear_all TimeStep.clear_blocking_info
  clear_all-kept r [] s h = h
  clear_all-kept r (q ∷ rest) s h =
      let (i, store) = TimeStep.clear_blocking_info ops s.store (s.at_ref q) in
      clear_all-kept r rest (assign q i (record s { store = store })) (ground (arith, h))

  clear_all-blockers :
      (rs : List ℕ) (s : Board S) → All (λ r. ((clear_all rs s).at_ref r).blockers ≡ []) rs
  unfolding clear_all TimeStep.clear_blocking_info
  clear_all-blockers [] s = tt
  clear_all-blockers (r ∷ rest) s =
      let (i, store) = TimeStep.clear_blocking_info ops s.store (s.at_ref r) in
      let next : Board S = assign r i (record s { store = store }) in
      (
        clear_all-kept r rest next (ground (arith, ref_Eq.beq_iff r r)),
        clear_all-blockers rest next,
      )

  clear_all-blockees : (rs : List ℕ) (s : Board S) → (clear_all rs s).blockees ≡ s.blockees
  unfolding clear_all
  clear_all-blockees [] s = refl
  clear_all-blockees (r ∷ rest) s =
      let (i, store) = TimeStep.clear_blocking_info ops s.store (s.at_ref r) in
      clear_all-blockees rest (assign r i (record s { store = store }))

  -- After `clear_blocking_info` no time step of the centre waits for another, and none is waited for.
  pub clear_blocking_info-blockers :
      (rs : List ℕ) (s : Board S)
      → All (λ r. ((clear_blocking_info rs s).at_ref r).blockers ≡ []) rs
        × ((clear_blocking_info rs s).blockees ≡ [])
  unfolding clear_blocking_info
  clear_blocking_info-blockers rs s = (
    clear_all-blockers rs (record s { blockees = [] }),
    clear_all-blockees rs (record s { blockees = [] }),
  )
