-- ===== src/Job/Notify.antt =====
-- cxsom/src/cxsomJobs.hpp with cxsom/src/cxsomTimeStep.hpp: how a time step that is done tells those that wait for it.
-- A `timestep::ref` is an address, and the time steps are found by their addresses.
pub mod Ending
pub mod Clearing
pub mod Tests
use cxsom.Prelude.{
  ℕ, zero, suc, Bool, true, false, if◌then◌else◌, ◌==◌, ==_iff, Eq, Option, none, some, ◌>>=◌, List,
  [], ◌∷◌, ◌++◌, find, store, insert,
}
use cxsom.Symbol.{TimeStep, time_step_Eq}
use cxsom.TimeStep.{Updates, Instance, Outcome, notify_unblock}

instance abbrev pub ref_Eq : Eq ℕ
ref_Eq = record { beq = ◌==◌; beq_iff = ==_iff }

-- `blockees` and `terminated_ts` of the job centre, the time steps in memory, and the state of
-- the updates.
pub record Board (S : Type 0) : Type 0 where
  pub blockees : List (TimeStep × List ℕ)
  pub terminated_ts : List TimeStep
  pub at_ref : ℕ → Instance
  pub store : S

abbrev pub assign : {S : Type 0} → ℕ → Instance → Board S → Board S
assign r i s = record s { at_ref = λ q. if r == q then i else s.at_ref q }

abbrev pub blockees_of : TimeStep → List (TimeStep × List ℕ) → List ℕ
blockees_of me m = elim (find me m) [ none ↦ [] | some rs ↦ rs ]

-- The loop of `integrity_notify_blocked`.
unfoldable pub insert_blockee :
    ℕ → List TimeStep → List (TimeStep × List ℕ) → List (TimeStep × List ℕ)
insert_blockee me [] m = m
insert_blockee me (b ∷ rest) m = insert_blockee me rest (store b (insert me (blockees_of b m)) m)

-- `integrity_notify_blocked`, with `acq_new_blockers`.
unfoldable pub integrity_notify_blocked : {S : Type 0} → ℕ → Board S → Board S
integrity_notify_blocked me s =
    assign me (record (s.at_ref me) { new_blockers = [] })
      (record s { blockees = insert_blockee me (s.at_ref me).new_blockers s.blockees })

-- `notify_unblock` of the time step at an address.
unfoldable pub unblock : {S : Type 0} → Updates S → TimeStep → ℕ → Board S → Bool × Board S
unblock ops me r s =
    let o = notify_unblock ops me s.store (s.at_ref r) in
    (o.notified, assign r o.self (record s { store = o.store }))

-- The loop of `notify_done`; `notify` is the call of `notify_done` that a time step makes when it is
-- done in its turn.
unfoldable pub unblock_all :
    {S : Type 0}
    → Updates S
    → (TimeStep → Board S → Option (Board S))
    → TimeStep
    → List ℕ
    → Board S
    → Option (Board S)
unblock_all ops notify me [] s = some s
unblock_all ops notify me (r ∷ rest) s =
    let (done, s') = unblock ops me r s in
    elim done [
      | false ↦ unblock_all ops notify me rest s'
      | true ↦ notify (s'.at_ref r).who s' >>= unblock_all ops notify me rest
    ]

-- `notify_done`, which calls itself at most as deep as the fuel.
unfoldable pub notify_done : {S : Type 0} → Updates S → ℕ → TimeStep → Board S → Option (Board S)
notify_done ops zero me s = none
notify_done ops (suc n) me s =
    unblock_all ops (notify_done ops n) me (blockees_of me s.blockees)
      (record s { terminated_ts = s.terminated_ts ++ me ∷ [] })
