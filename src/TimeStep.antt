-- ===== src/TimeStep.antt =====
-- cxsom/src/cxsomTimeStep.hpp: a time step and its five queues of updates. The shared updates and
-- data instances are a store, reached through the interface `Updates`.
pub mod Settling
pub mod Run
pub mod Totals
use cxsom.Prelude.{
  ℕ, Bool, true, false, not, ◌&&◌, ◌||◌, Option, none, some, List, [], ◌∷◌, ◌++◌, map,
  if◌then◌else◌, is_empty, contains, insert, insert_all, erase, String,
}
use cxsom.Symbol.{Variable, TimeStep, belongs, name_eq, variable_Eq, time_step_Eq}
use cxsom.Symbol
use cxsom.Data.{Availability}
use cxsom.Update

pub data Status : Type 0 where
  unbound blocked relaxing checking done : Status

-- `fresh` is the queue `New`.
pub data Queue : Type 0 where
  unstable impossible stable confirmed fresh : Queue

-- An update is known by its pointer.
pub record Content : Type 0 where
  pub init : Option ℕ
  pub usual : ℕ
  pub no_processing : Bool

-- `content::operator()`
abbrev pub call : Content → ℕ
call c = elim c.init [ none ↦ c.usual | some u ↦ u ]

abbrev pub has_init : Content → Bool
has_init c = elim c.init [ none ↦ false | some u ↦ true ]

abbrev pub init_done : Content → Content
init_done c = record c { init = none }

-- What a time step asks of the updates that it holds. `S` is the state of all updates and data
-- instances; `who` and `args_in` are fixed when an update is built.
pub record Updates (S : Type 0) : Type 0 where
  pub who : ℕ → Symbol.Instance
  pub args_in : ℕ → List Symbol.Instance
  pub availability : S → Symbol.Instance → Availability
  pub blockers_range : S → ℕ → List TimeStep
  pub set_ready : ℕ → S → S
  pub sync_arguments : ℕ → S → S
  pub set_is_init : ℕ → Bool → S → S
  pub exec : ℕ → S → Update.Status × S

pub record Instance : Type 0 where
  pub status : Status
  pub who : TimeStep
  pub blockers : List TimeStep
  pub new_blockers : List TimeStep
  pub variables : List Variable
  pub unbounds_ready : List Variable
  pub unstable : List Content
  pub impossible : List Content
  pub stable : List Content
  pub confirmed : List Content
  pub fresh : List Content

pub record Task : Type 0 where
  pub step : TimeStep
  pub update : Content
  pub source : Queue
  pub report : Update.Status

-- The result of a status update. `notify_done` is called last: whether it is called is a result,
-- and the job centre makes the call.
pub record Outcome (S : Type 0) : Type 0 where
  pub self : Instance
  pub store : S
  pub notified : Bool

abbrev pub make : TimeStep → Instance
make ts = record {
  status = Status.relaxing;
  who = ts;
  blockers = [];
  new_blockers = [];
  variables = [];
  unbounds_ready = [];
  unstable = [];
  impossible = [];
  stable = [];
  confirmed = [];
  fresh = [];
}

pub record Scan : Type 0 where
  pub known : List Variable
  pub busy : Bool

pub record Unbounds : Type 0 where
  pub kept : List Content
  pub moved : List Content
  pub known : List Variable
  pub found : Bool

module _ {S : Type 0} (ops : Updates S) where
  -- One argument of `busy_unbounds_found`.
  unfoldable pub scan_arg : S → List Variable → Symbol.Instance → Scan → Scan
  scan_arg s vars a r =
      if contains a.variable vars || contains a.variable r.known
      then r
      else elim (ops.availability s a) [
        | Availability.busy ↦ record r { busy = true }
        | Availability.ready ↦ record r { known = insert a.variable r.known }
        | Availability.unnamed ↦ r
      ]

  unfoldable pub scan_args : S → List Variable → List Symbol.Instance → Scan → Scan
  scan_args s vars [] r = r
  scan_args s vars (a ∷ rest) r = scan_args s vars rest (scan_arg s vars a r)

  -- `for (auto u : {u_bar.init, u_bar.usual}) if (u) ...`
  unfoldable pub scan_content : S → List Variable → Content → List Variable → Scan
  scan_content s vars c known =
      let start : Scan = record { known = known; busy = false } in
      scan_args s vars (ops.args_in c.usual)
        (elim c.init [ none ↦ start | some u ↦ scan_args s vars (ops.args_in u) start ])

  unfoldable pub scan_queue : S → List Variable → List Content → List Variable → Unbounds
  scan_queue s vars [] known = record { kept = []; moved = []; known = known; found = false }
  scan_queue s vars (c ∷ cs) known =
      let r = scan_content s vars c known in
      let rest = scan_queue s vars cs r.known in
      if r.busy
      then record rest { kept = c ∷ rest.kept; found = true }
      else record rest { moved = c ∷ rest.moved }

  -- `UnboundManager::busy_unbounds_found` on the queues `New` and `Unstable`.
  unfoldable pub busy_unbounds_found : S → Instance → Bool × Instance
  busy_unbounds_found s i =
      let r = scan_queue s i.variables i.fresh i.unbounds_ready in
      (
        r.found,
        record i { fresh = r.kept; unstable = i.unstable ++ r.moved; unbounds_ready = r.known },
      )

  unfoldable pub set_all_ready : List Content → S → S
  set_all_ready [] s = s
  set_all_ready (c ∷ cs) s = set_all_ready cs (ops.set_ready (call c) s)

  -- `update_status` once no unbound variable is busy.
  unfoldable pub settle : S → Instance → Outcome S
  settle s i =
      if not (is_empty i.impossible)
      then (if is_empty i.blockers
          then quiet (record flushed {
            unstable = i.unstable ++ i.impossible;
            impossible = [];
            status = Status.relaxing;
          })
          else quiet (record flushed { status = Status.blocked }))
      else if not (is_empty i.unstable)
      then quiet (record flushed { status = Status.relaxing })
      else if not (is_empty i.stable)
      then quiet (record i { status = Status.checking })
      else record {
        self = record i { status = Status.done; confirmed = [] };
        store = set_all_ready i.confirmed s;
        notified = true;
      }
    where
      flushed : Instance
      flushed = record i { stable = i.stable ++ i.confirmed; confirmed = [] }

      quiet : Instance → Outcome S
      quiet j = record { self = j; store = s; notified = false }

  unfoldable pub update_status : S → Instance → Outcome S
  update_status s i =
      let (found, j) = busy_unbounds_found s i in
      if found
      then record { self = record j { status = Status.unbound }; store = s; notified = false }
      else settle s j

  -- `check_unbound`
  unfoldable pub check_unbound : S → Instance → Instance
  check_unbound s i =
      let (found, j) = busy_unbounds_found s i in
      if found then record j { status = Status.unbound } else j

  -- `content(usual)` and `content(init, usual)` set the flags of the updates that they hold.
  pub make_content : Option ℕ → ℕ → S → Content × S
  make_content none usual s =
      (record { init = none; usual = usual; no_processing = true }, ops.set_is_init usual false s)
  make_content (some u) usual s = (
    record { init = some u; usual = usual; no_processing = true },
    ops.set_is_init usual false (ops.set_is_init u true s),
  )

  unfoldable pub test_add : Symbol.Instance → Instance → Bool × Instance
  test_add r i =
      if belongs r i.who && not (contains r.variable i.variables)
      then (true, record i { variables = insert r.variable i.variables })
      else (false, i)

  -- `operator+=`
  unfoldable pub add : Content → Instance → Instance
  add c i =
      let (fits, j) = test_add (ops.who c.usual) i in
      if fits then record j { fresh = j.fresh ++ c ∷ [] } else j

  unfoldable pub sync_all : List Content → S → S
  sync_all [] s = s
  sync_all (c ∷ cs) s = sync_all cs (ops.sync_arguments (call c) s)

  unfoldable pub clear_blocking_info : S → Instance → Instance × S
  clear_blocking_info s i = (
    record i {
      blockers = [];
      unstable = i.unstable ++ i.impossible;
      impossible = [];
      status = Status.relaxing;
    },
    sync_all i.impossible (sync_all i.fresh s),
  )

  unfoldable pub notify_unblock : TimeStep → S → Instance → Outcome S
  notify_unblock b s i =
      let j = record i { blockers = erase b i.blockers } in
      if is_empty j.blockers
      then update_status s j
      else record { self = j; store = s; notified = false }
