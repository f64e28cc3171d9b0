-- ===== src/Job/Center.antt =====
-- cxsom/src/cxsomJobs.hpp: the time steps and the patterns of the job centre, and how patterns are realized.
use cxsom.Prelude.{
  ℕ, min, String, Bool, not, ◌&&◌, if◌then◌else◌, ◌==◌, leb, Option, none, some, List, [], ◌∷◌,
  find, store, is_empty,
}
use cxsom.Symbol.{Variable, TimeStep, name_Eq, variable_Eq, time_step_Eq, time_step_of}
use cxsom.Symbol
use cxsom.Job.{Update, UpdatePattern, update_at}

-- What the centre uses of a time step: `timestep::make`, the conversion to its status, `has_instance`,
-- and `+=` with the update that the factory makes of a rule.
pub record Steps (P S : Type 0) : Type 0 where
  pub make : TimeStep → S
  pub who : S → TimeStep
  pub is_done : S → Bool
  pub has_instance : Symbol.Instance → S → Bool
  pub add_update : Update P → S → S

pub record Center (P S : Type 0) : Type 0 where
  pub timesteps : List (TimeStep × S)
  pub patterns : List (Variable × UpdatePattern P)

-- The earliest date of a timeline, with one more date.
unfoldable pub note_date : String → ℕ → List (String × ℕ) → List (String × ℕ)
note_date timeline at m = elim (find timeline m) [
  | none ↦ store timeline at m
  | some first ↦ store timeline (min first at) m
]

module _ {P S : Type 0} (steps : Steps P S) (history_length : Variable → ℕ) where
  -- `clean_timesteps`
  unfoldable pub clean : List (TimeStep × S) → List (TimeStep × S)
  clean [] = []
  clean ((k, s) ∷ rest) =
      let cleaned = clean rest in if steps.is_done s then cleaned else (k, s) ∷ cleaned

  abbrev pub clean_timesteps : Center P S → Center P S
  clean_timesteps c = record c { timesteps = clean c.timesteps }

  -- `check_and_get`: the time step, and the centre where it is.
  unfoldable pub check_and_get : TimeStep → Center P S → S × Center P S
  check_and_get ts c = elim (find ts c.timesteps) [
    | none ↦ (steps.make ts, record c { timesteps = store ts (steps.make ts) c.timesteps })
    | some s ↦ (s, c)
  ]

  -- `operator+=` of a pattern, once its types are checked.
  abbrev pub add_pattern : UpdatePattern P → Center P S → Center P S
  add_pattern u c = record c { patterns = store u.res u c.patterns }

  -- A pattern is within its wall time.
  abbrev pub feasible : UpdatePattern P → Bool
  feasible u = leb (history_length u.res) u.walltime

  -- The first loop of `unprotected_realize_patterns`: the earliest dates of the timelines.
  unfoldable pub note_pattern : Variable → UpdatePattern P → List (String × ℕ) → List (String × ℕ)
  note_pattern v u m =
      let noted = note_date v.timeline (history_length u.res) m in if feasible u then noted else m

  -- The first loop of `unprotected_realize_patterns`.
  unfoldable pub earliest :
      List (Variable × UpdatePattern P) → List (String × ℕ) → List (String × ℕ)
  earliest [] m = m
  earliest ((v, u) ∷ rest) m = earliest rest (note_pattern v u m)

  -- The update is added to its time step, unless `at` has thrown `negative_time`.
  unfoldable pub put_update : Option (Update P) → TimeStep → S → Center P S → Center P S
  put_update none k ts c = c
  put_update (some updt) k ts c = record c {
    timesteps = store k (steps.add_update updt ts) c.timesteps;
  }

  abbrev pub instance_of : UpdatePattern P → Symbol.Instance
  instance_of u = record { variable = u.res; at = history_length u.res }

  -- `unprotected_realize`. The time step is made even if `at` throws `negative_time` afterwards.
  unfoldable pub unprotected_realize : UpdatePattern P → ℕ → Center P S → Center P S
  unprotected_realize u min_at c =
      let at = history_length u.res in
      let k = time_step_of (instance_of u) in
      let (ts, c') = check_and_get k c in
      if not (feasible u && at == min_at)
      then c
      else if steps.has_instance (instance_of u) ts
      then c'
      else put_update (update_at u at) k ts c'

  -- The second loop.
  unfoldable pub realize_entry : Option ℕ → UpdatePattern P → Center P S → Center P S
  realize_entry none u c = c
  realize_entry (some min_at) u c = unprotected_realize u min_at c

  unfoldable pub realize_all :
      List (String × ℕ) → List (Variable × UpdatePattern P) → Center P S → Center P S
  realize_all m [] c = c
  realize_all m ((v, u) ∷ rest) c = realize_all m rest (realize_entry (find v.timeline m) u c)

  unfoldable pub unprotected_realize_patterns : Center P S → Center P S
  unprotected_realize_patterns c =
      let m = earliest c.patterns [] in if is_empty m then c else realize_all m c.patterns c
