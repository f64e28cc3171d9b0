-- ===== src/Rules/Renaming.antt =====
-- cxsom/src/cxsom-rules.hpp: `context::rename`.
use cxsom.Prelude.{
  Bool, false, ◌&&◌, ◌||◌, if◌then◌else◌, Option, none, some, List, [], ◌∷◌, map, ◌=?◌, find, store,
  insert, erase,
}
use cxsom.Rules.{RuleError, ValueKey, ValueAtKey, Data, Update, TypeInfo, key_Eq, at_key_Eq}
use cxsom.Rules.Context.{Context}

-- `if(kv.first.key == from) kv.first.key = to`
unfoldable pub rename_at : ValueKey → ValueKey → ValueAtKey → ValueAtKey
rename_at from to k = if k.key =? from then record k { key = to } else k

-- `data::rename`
abbrev pub rename_data : ValueKey → ValueKey → Data → Data
rename_data from to d = record { id = rename_at from to d.id }

-- `update::rename`
abbrev pub rename_update : {D : Type 0} → ValueKey → ValueKey → Update D → Update D
rename_update from to u = record u {
  dest = rename_data from to u.dest;
  args = map (rename_data from to) u.args;
}

-- A rule for a variable, at any date.
unfoldable pub is_ruled : {D : Type 0} → ValueKey → List (ValueAtKey × Update D) → Bool
is_ruled k [] = false
is_ruled k ((v, u) ∷ rest) = (k =? v.key) || is_ruled k rest

-- The instances of a variable that are declared.
unfoldable pub to_rename : ValueKey → List ValueAtKey → List ValueAtKey
to_rename from [] = []
to_rename from (v ∷ rest) =
    let more = to_rename from rest in if v.key =? from then v ∷ more else more

unfoldable pub rename_instances : ValueKey → List ValueAtKey → List ValueAtKey → List ValueAtKey
rename_instances to [] declared = declared
rename_instances to (v ∷ rest) declared =
    rename_instances to rest (insert (record v { key = to }) (erase v declared))

-- `declared_types.erase`
unfoldable pub erase_key : ValueKey → List (ValueKey × TypeInfo) → List (ValueKey × TypeInfo)
erase_key k [] = []
erase_key k ((j, t) ∷ rest) =
    let erased = erase_key k rest in if j =? k then rest else (j, t) ∷ erased

unfoldable pub rename_types :
    ValueKey → ValueKey → List (ValueKey × TypeInfo) → List (ValueKey × TypeInfo)
rename_types from to types = elim (find from types) [
  | none ↦ types
  | some t ↦ store to t (erase_key from types)
]

-- The map of the updates is made again, one rule after the other.
unfoldable pub rename_rules :
    {D : Type 0}
    → ValueKey
    → ValueKey
    → List (ValueAtKey × Update D)
    → List (ValueAtKey × Update D)
    → List (ValueAtKey × Update D)
rename_rules from to [] made = made
rename_rules from to ((v, u) ∷ rest) made =
    rename_rules from to rest (store (rename_at from to v) (rename_update from to u) made)

module _ {D : Type 0} where
  -- Both variables have rules.
  abbrev pub clashes : ValueKey → ValueKey → Context D → Bool
  clashes from to c =
      (is_ruled from c.inits || is_ruled from c.updates)
      && (is_ruled to c.inits || is_ruled to c.updates)

  -- The inits are renamed twice, as in the source.
  unfoldable pub rename : ValueKey → ValueKey → Context D → Option RuleError × Context D
  rename from to c = if clashes from to c then (some RuleError.invalid_rename, c) else (
    none,
    record {
      declared_instances =
          rename_instances to (to_rename from c.declared_instances) c.declared_instances;
      declared_values = insert to (erase from c.declared_values);
      declared_types = rename_types from to c.declared_types;
      updates = rename_rules from to c.updates [];
      inits = rename_rules from to (rename_rules from to c.inits []) [];
    },
  )
