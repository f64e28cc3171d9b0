-- ===== src/TimeStep/Settling.antt =====
-- The queues of a time step after its status is settled.
use cxsom.Prelude.{is_empty, ◌≡◌, ◌≢◌, refl, Bool, true, false, not, List, [], ◌∷◌, arith}
use cxsom.Symbol.{Variable}
use cxsom.TimeStep.{
  Status, Content, Updates, Instance, scan_content, scan_queue, busy_unbounds_found, settle,
  update_status,
}

-- What each status says of the queues.
abbrev pub Settled : Status → Instance → Type 0
Settled Status.unbound i = i.fresh ≢ []
Settled Status.blocked i =
    (i.fresh ≡ []) × (i.impossible ≢ []) × (i.blockers ≢ []) × (i.confirmed ≡ [])
Settled Status.relaxing i =
    (i.fresh ≡ []) × (i.impossible ≡ []) × (i.unstable ≢ []) × (i.confirmed ≡ [])
Settled Status.checking i =
    (i.fresh ≡ []) × (i.impossible ≡ []) × (i.unstable ≡ []) × (i.stable ≢ [])
Settled Status.done i =
    (i.fresh ≡ []) × (i.impossible ≡ []) × (i.unstable ≡ []) × (i.stable ≡ []) × (i.confirmed ≡ [])

abbrev pub is_done : Status → Bool
is_done Status.done = true
is_done _ = false

module _ {S : Type 0} (ops : Updates S) where
  pub scan_queue-found :
      (s : S) (vars : List Variable) (cs : List Content) (known : List Variable)
      → let r = scan_queue ops s vars cs known in r.found ≡ not (is_empty r.kept)
  unfolding scan_queue
  scan_queue-found s vars [] known = refl
  scan_queue-found s vars (c ∷ cs) known =
      ground (arith, scan_queue-found s vars cs (scan_content ops s vars c known).known)

  pub settle-Settled :
      (s : S) (i : Instance)
      → i.fresh ≡ []
      → Settled (settle ops s i).self.status (settle ops s i).self
  unfolding settle
  settle-Settled s i h = ground arith

  -- `notify_done` is called exactly when the time step gets the status `Done`.
  pub settle-notified :
      (s : S) (i : Instance) → (settle ops s i).notified ≡ is_done (settle ops s i).self.status
  unfolding settle
  settle-notified s i = ground arith

  -- A status update, from any state, leaves the queues that its status announces, and calls
  -- `notify_done` exactly when that status is `Done`.
  pub update_status-Settled :
      (s : S) (i : Instance)
      → let o = update_status ops s i in
        Settled o.self.status o.self × (o.notified ≡ is_done o.self.status)
  unfolding update_status busy_unbounds_found
  update_status-Settled s i = ground (
    arith,
    scan_queue-found s i.variables i.fresh i.unbounds_ready,
    settle-Settled s (busy_unbounds_found ops s i).1,
    settle-notified s (busy_unbounds_found ops s i).1,
  )
