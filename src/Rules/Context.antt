-- ===== src/Rules/Context.antt =====
-- cxsom/src/cxsom-rules.hpp, the class `context`: what a program has declared, and the updates of its rules.
use cxsom.Prelude.{
  String, Bool, true, false, if◌then◌else◌, Option, none, some, List, [], ◌∷◌, find, store, insert,
  ◌⊎◌, inl, inr,
}
use cxsom.Job.{pos}
use cxsom.Rules.{
  RuleError, Step, ValueKey, ValueAtKey, Data, Update, TypeInfo, info_eq, step_eq, key_Eq,
  at_key_Eq,
}

-- The graphs that are drawn, the indentation and the arguments of the program are left out.
pub record Context (D : Type 0) : Type 0 where
  pub declared_instances : List ValueAtKey
  pub declared_values : List ValueKey
  pub declared_types : List (ValueKey × TypeInfo)
  pub updates : List (ValueAtKey × Update D)
  pub inits : List (ValueAtKey × Update D)

abbrev pub empty : {D : Type 0} → Context D
empty = record {
  declared_instances = [];
  declared_values = [];
  declared_types = [];
  updates = [];
  inits = [];
}

-- `std::holds_alternative<unsigned int>`
abbrev pub is_instant : Step → Bool
is_instant (Step.instant n) = true
is_instant s = false

-- `check_res`: an offset other than 0, and a scale, are refused.
abbrev pub check_res : Data → Option RuleError
check_res v = elim v.id.date [
  | Step.instant n ↦ none
  | Step.offset k ↦
      if step_eq (Step.offset k) (Step.offset (pos 0)) then none else some RuleError.bad_update
  | Step.scale n ↦ some RuleError.bad_update
]

abbrev pub check_arg : Data → Option RuleError
check_arg a = if is_instant a.id.date then none else some RuleError.bad_update

-- The loop of `check_args`; the first argument that is refused throws.
unfoldable pub check_each : List Data → Option RuleError
check_each [] = none
check_each (a ∷ rest) = elim (check_arg a) [ some e ↦ some e | none ↦ check_each rest ]

module _ {D : Type 0} where
  unfoldable pub check_args : Data → Update D → Option RuleError
  check_args res u = if is_instant res.id.date then check_each u.args else none

  unfoldable pub check_update : Data → Update D → Option RuleError
  check_update res u = elim (check_res res) [ some e ↦ some e | none ↦ check_args res u ]

  -- `context::operator()`
  abbrev pub declare : Data → Context D → Context D
  declare d c = record c {
    declared_instances = insert d.id c.declared_instances;
    declared_values = insert d.id.key c.declared_values;
  }

  unfoldable pub declare_all : List Data → Context D → Context D
  declare_all [] c = c
  declare_all (d ∷ rest) c = declare_all rest (declare d c)

  -- A function of `fx` on its arguments.
  abbrev pub apply : String → List Data → Context D → Update D × Context D
  apply name args c = (
    record {
      name = name;
      dest = record {
        id = record { key = record { timeline = ""; name = "" }; date = Step.instant 0 };
      };
      args = args;
      params = [];
    },
    declare_all args c,
  )

  -- `add_update` and `add_init`
  unfoldable pub add_update : ValueAtKey → Update D → Context D → Option RuleError × Context D
  add_update v u c = elim (find v c.updates) [
    | some w ↦ (some RuleError.double_update, c)
    | none ↦ (none, record c { updates = store v u c.updates })
  ]

  unfoldable pub add_init : ValueAtKey → Update D → Context D → Option RuleError × Context D
  add_init v u c = elim (find v c.inits) [
    | some w ↦ (some RuleError.double_update, c)
    | none ↦ (none, record c { inits = store v u c.inits })
  ]

  -- `v << u` and `v <= u`
  unfoldable pub set_update : Data → Update D → Context D → Option RuleError × Context D
  set_update v u c = elim (check_update v u) [
    | some e ↦ (some e, c)
    | none ↦ add_update v.id (record u { dest = v }) (declare v c)
  ]

  unfoldable pub set_init : Data → Update D → Context D → Option RuleError × Context D
  set_init v u c = elim (check_update v u) [
    | some e ↦ (some e, c)
    | none ↦ add_init v.id (record u { dest = v }) (declare v c)
  ]

  -- `type_of`
  abbrev pub type_of : ValueKey → Context D → RuleError ⊎ String
  type_of v c = elim (find v c.declared_types) [
    | none ↦ inl RuleError.unknown_variable
    | some t ↦ inr t.type
  ]

  unfoldable pub declare_type : ValueKey → TypeInfo → Context D → Option RuleError × Context D
  declare_type v info c = elim (find v c.declared_types) [
    | none ↦ (none, record c { declared_types = store v info c.declared_types })
    | some t ↦ if info_eq t info then (none, c) else (some RuleError.redeclare_type, c)
  ]

  -- `check_orphan_inits`
  unfoldable pub check_orphans : List (ValueAtKey × Update D) → Context D → Option RuleError
  check_orphans [] c = none
  check_orphans ((k, u) ∷ rest) c = elim (find k c.updates) [
    | none ↦ some RuleError.bad_update
    | some w ↦ check_orphans rest c
  ]

  abbrev pub check_orphan_inits : Context D → Option RuleError
  check_orphan_inits c = check_orphans c.inits c
