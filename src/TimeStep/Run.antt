-- ===== src/TimeStep/Run.antt =====
-- cxsom/src/cxsomTimeStep.hpp: the jobs that a time step hands out, and what it does with their
-- reports.
pub mod Removal
pub mod Unique
pub mod Progress
pub mod Reports
pub mod Life
use cxsom.Prelude.{
  is_empty, String, Bool, true, false, not, ◌&&◌, Option, none, some, List, [], ◌∷◌, ◌++◌,
  if◌then◌else◌, insert_all,
}
use cxsom.Symbol.{name_eq, time_step_Eq}
use cxsom.Update
use cxsom.TimeStep.{
  Status, Queue, Content, Updates, Instance, Task, Outcome, call, has_init, init_done,
  check_unbound, update_status,
}

-- The first content of the queue that updates the variable is removed.
unfoldable pub remove_first : (Content → Bool) → List Content → Option (List Content)
remove_first p [] = none
remove_first p (c ∷ cs) =
    let rest = remove_first p cs in
    if p c then some cs else elim rest [ none ↦ none | some r ↦ some (c ∷ r) ]

-- `remove_update`: the queues are visited in the order of the array.
unfoldable pub remove_where : (Content → Bool) → Instance → Instance
remove_where p i = elim (remove_first p i.unstable) [
  | some q ↦ record i { unstable = q }
  | none ↦ elim (remove_first p i.impossible) [
    | some q ↦ record i { impossible = q }
    | none ↦ elim (remove_first p i.stable) [
      | some q ↦ record i { stable = q }
      | none ↦ elim (remove_first p i.confirmed) [
        | some q ↦ record i { confirmed = q }
        | none ↦ elim (remove_first p i.fresh) [ some q ↦ record i { fresh = q } | none ↦ i ]
      ]
    ]
  ]
]

abbrev is_checking : Status → Bool
is_checking Status.checking = true
is_checking _ = false

abbrev is_stable : Queue → Bool
is_stable Queue.stable = true
is_stable _ = false

-- The `Task` constructor copies the content, then marks the original.
abbrev pub marked : Content → Content
marked c = record c { no_processing = false }

-- The loop of `get_jobs` over one queue.
unfoldable pub mark : List Content → List Content
mark [] = []
mark (c ∷ cs) = (if c.no_processing then marked c else c) ∷ mark cs

unfoldable pub jobs_of : Instance → Queue → List Content → List Task
jobs_of i source [] = []
jobs_of i source (c ∷ cs) =
    let rest = jobs_of i source cs in
    if c.no_processing
    then record { step = i.who; update = c; source = source; report = Update.Status.none_yet }
      ∷ rest
    else rest

pub record Jobs : Type 0 where
  pub found : Bool
  pub tasks : List Task
  pub self : Instance

-- The `switch` of `get_jobs`.
unfoldable pub hand_out : Instance → Jobs
hand_out j = elim j.status [
  | Status.relaxing ↦
      let ts = jobs_of j Queue.unstable j.unstable ++ jobs_of j Queue.stable j.stable in
      record {
        found = not (is_empty ts);
        tasks = ts;
        self = record j { unstable = mark j.unstable; stable = mark j.stable };
      }
  | Status.checking ↦
      let ts = jobs_of j Queue.stable j.stable in
      record { found = not (is_empty ts); tasks = ts; self = record j { stable = mark j.stable } }
  | _ ↦ record { found = false; tasks = []; self = j }
]

module _ {S : Type 0} (ops : Updates S) where
  abbrev pub var_name : Content → String
  var_name c = (ops.who c.usual).variable.name

  -- `content::operator==`
  abbrev pub named : String → Content → Bool
  named name c = name_eq (var_name c) name

  unfoldable pub remove_update : String → Instance → Instance
  remove_update name = remove_where (named name)

  -- The `switch` of `report`; `none` is the exception.
  unfoldable pub requeue : S → Task → Instance → Option Instance
  requeue s t i = elim t.report [
    | Update.Status.impossible ↦
        let bs = ops.blockers_range s (call t.update) in
        some (record i {
          impossible = i.impossible ++ t.update ∷ [];
          blockers = insert_all bs i.blockers;
          new_blockers = i.new_blockers ++ bs;
        })
    | Update.Status.up_to_date ↦ some (
        if has_init t.update
        then record i { unstable = i.unstable ++ init_done t.update ∷ [] }
        else if is_checking i.status && is_stable t.source
        then record i { confirmed = i.confirmed ++ t.update ∷ [] }
        else record i { stable = i.stable ++ t.update ∷ [] })
    | Update.Status.updated ↦ some (record i { unstable = i.unstable ++ init_done t.update ∷ [] })
    | Update.Status.done ↦ some (
        if has_init t.update
        then record i { unstable = i.unstable ++ init_done t.update ∷ [] }
        else i)
    | Update.Status.none_yet ↦ none
  ]

  unfoldable pub report : S → Task → Instance → Option (Outcome S)
  report s t i = elim (requeue s t (remove_update (var_name t.update) i)) [
    | none ↦ none
    | some j ↦ some (update_status ops s j)
  ]

  -- `get_jobs`
  unfoldable pub get_jobs : S → Instance → Jobs
  get_jobs s i = hand_out (check_unbound ops s i)

  -- `Task::operator()`: the update is run and reported. The Boolean asks for `notify_blocked`.
  unfoldable pub run_task : S → Task → Instance → Option (Outcome S × Bool)
  run_task s t i =
      let (st, s') = ops.exec (call t.update) s in
      elim (report s' (record t { report = st }) i) [
        | none ↦ none
        | some o ↦ some (o, elim st [ Update.Status.impossible ↦ true | _ ↦ false ])
      ]
