-- ===== src/Rules/Sound.antt =====
-- cxsom/src/cxsom-rules.hpp: the rules of a program, whatever it declares, sets and renames.
use cxsom.Prelude.{
  ◌≡◌, refl, sym, ap, subst, Option, none, List, [], ◌∷◌, map, find, store, insert, contains-insert,
  All, All-map, arith, inl, inr, Option-cases, if_split,
}
use cxsom.Rules.{RuleError, ValueKey, ValueAtKey, Data, Update, TypeInfo, key_Eq, at_key_Eq}
use cxsom.Rules.Context.{
  Context, empty, check_args, check_update, declare, declare_all, add_update, add_init, set_update,
  set_init, declare_type,
}
use cxsom.Rules.Renaming.{
  rename_at, rename_data, rename_update, to_rename, rename_instances, rename_rules, rename, clashes,
}
use cxsom.Rules.Keeping.{HasKeys}
use cxsom.Rules.Stored.{
  Rule, IsSound, store-All, store-HasKeys, rename_rules-All, rename_rules-HasKeys, rename-IsSound,
}

-- What a program does: it applies functions to data, sets updates and inits, and renames. An update that
-- it sets may have been made at any moment before, so that it is any update.
pub data Step {D : Type 0} : Context D → Context D → Type 0 where
  declares : (ds : List Data) (c : Context D) → Step c (declare_all ds c)
  sets : (v : Data) (u : Update D) (c : Context D) → Step c (set_update v u c).1
  inits : (v : Data) (u : Update D) (c : Context D) → Step c (set_init v u c).1
  types : (k : ValueKey) (t : TypeInfo) (c : Context D) → Step c (declare_type k t c).1
  renames : (from to : ValueKey) (c : Context D) → Step c (rename from to c).1

pub data Reach {D : Type 0} : Context D → Type 0 where
  here : Reach empty
  next : {b c : Context D} → Reach b → Step b c → Reach c

-- All rules are sound, and stand under different keys.
pub record Inv {D : Type 0} (c : Context D) : Type 0 where
  pub updates : All (IsSound c.declared_instances) c.updates
  pub inits : All (IsSound c.declared_instances) c.inits
  pub update_keys : HasKeys c.updates
  pub init_keys : HasKeys c.inits

-- What is renamed is not renamed again.
pub rename_at-twice :
    (from to : ValueKey) (k : ValueAtKey)
    → rename_at from to (rename_at from to k) ≡ rename_at from to k
unfolding rename_at
rename_at-twice from to k = ground arith

map-twice :
    (from to : ValueKey) (args : List Data)
    → map (rename_data from to) (map (rename_data from to) args) ≡ map (rename_data from to) args
map-twice from to [] = refl
map-twice from to (a ∷ rest) = ground (arith, rename_at-twice from to a.id, map-twice from to rest)

module _ {D : Type 0} where
  insert-IsSound :
      (i : ValueAtKey) (declared : List ValueAtKey) (m : List (Rule D))
      → All (IsSound declared) m
      → All (IsSound (insert i declared)) m
  insert-IsSound i declared [] h = tt
  insert-IsSound i declared ((k, u) ∷ rest) ((d, c, q), h) =
      ((d, c, ground (arith, contains-insert i k declared)), insert-IsSound i declared rest h)

  Inv-declare : (d : Data) (c : Context D) → Inv c → Inv (declare d c)
  Inv-declare d c v = record {
    updates = insert-IsSound d.id c.declared_instances c.updates v.updates;
    inits = insert-IsSound d.id c.declared_instances c.inits v.inits;
    update_keys = v.update_keys;
    init_keys = v.init_keys;
  }

  Inv-declare_all : (ds : List Data) (c : Context D) → Inv c → Inv (declare_all ds c)
  unfolding declare_all
  Inv-declare_all [] c v = v
  Inv-declare_all (d ∷ rest) c v = Inv-declare_all rest (declare d c) (Inv-declare d c v)

  -- The rule that is set is sound.
  new-IsSound :
      (w : Data) (u : Update D) (c : Context D)
      → check_update w u ≡ none
      → IsSound (insert w.id c.declared_instances) (w.id, record u { dest = w })
  unfolding check_update check_args
  new-IsSound w u c e = (
    refl,
    e,
    ground (arith, contains-insert w.id w.id c.declared_instances, at_key_Eq.beq_iff w.id w.id),
  )

  Inv-set_update : (w : Data) (u : Update D) (c : Context D) → Inv c → Inv (set_update w u c).1
  unfolding set_update add_update
  Inv-set_update w u c v = elim (Option-cases (check_update w u)) [
    | inr (x, e) ↦ let q : (set_update w u c).1 ≡ c = ground arith in subst Inv (sym q) v
    | inl e ↦ elim (Option-cases (find w.id c.updates)) [
      | inr (x, f) ↦
          let q : (set_update w u c).1 ≡ declare w c = ground arith in
          subst Inv (sym q) (Inv-declare w c v)
      | inl f ↦
          let d = Inv-declare w c v in
          let q : (set_update w u c).1
              ≡ record (declare w c) { updates = store w.id (record u { dest = w }) c.updates } =
            ground arith in
          subst Inv (sym q) (record {
            updates =
                store-All (IsSound (insert w.id c.declared_instances)) w.id (record u { dest = w })
                  c.updates d.updates (new-IsSound w u c e);
            inits = d.inits;
            update_keys = store-HasKeys w.id (record u { dest = w }) c.updates d.update_keys;
            init_keys = d.init_keys;
          })
    ]
  ]

  Inv-set_init : (w : Data) (u : Update D) (c : Context D) → Inv c → Inv (set_init w u c).1
  unfolding set_init add_init
  Inv-set_init w u c v = elim (Option-cases (check_update w u)) [
    | inr (x, e) ↦ let q : (set_init w u c).1 ≡ c = ground arith in subst Inv (sym q) v
    | inl e ↦ elim (Option-cases (find w.id c.inits)) [
      | inr (x, f) ↦
          let q : (set_init w u c).1 ≡ declare w c = ground arith in
          subst Inv (sym q) (Inv-declare w c v)
      | inl f ↦
          let d = Inv-declare w c v in
          let q : (set_init w u c).1
              ≡ record (declare w c) { inits = store w.id (record u { dest = w }) c.inits } =
            ground arith in
          subst Inv (sym q) (record {
            updates = d.updates;
            inits =
                store-All (IsSound (insert w.id c.declared_instances)) w.id (record u { dest = w })
                  c.inits d.inits (new-IsSound w u c e);
            update_keys = d.update_keys;
            init_keys = store-HasKeys w.id (record u { dest = w }) c.inits d.init_keys;
          })
    ]
  ]

  declare_type-kept :
      (k : ValueKey) (t : TypeInfo) (c : Context D)
      → let c' = (declare_type k t c).1 in
        (c'.updates ≡ c.updates)
        × (c'.inits ≡ c.inits)
        × (c'.declared_instances ≡ c.declared_instances)
  unfolding declare_type
  declare_type-kept k t c = ground arith

  Inv-declare_type :
      (k : ValueKey) (t : TypeInfo) (c : Context D) → Inv c → Inv (declare_type k t c).1
  unfolding declare_type
  Inv-declare_type k t c v =
      let (u, i, d) = declare_type-kept k t c in
      record {
        updates = rw (u, d) v.updates;
        inits = rw (i, d) v.inits;
        update_keys = rw u v.update_keys;
        init_keys = rw i v.init_keys;
      }

  pub rename_update-twice :
      (from to : ValueKey) (u : Update D)
      → rename_update from to (rename_update from to u) ≡ rename_update from to u
  rename_update-twice from to u =
      ground (arith, rename_at-twice from to u.dest.id, map-twice from to u.args)

  Inv-rename : (from to : ValueKey) (c : Context D) → Inv c → Inv (rename from to c).1
  unfolding rename HasKeys
  Inv-rename from to c v =
      let next = rename_instances to (to_rename from c.declared_instances) c.declared_instances in
      let once = rename_rules from to c.inits [] in
      if_split (λ (r : Option RuleError × Context D). Inv r.1) (clashes from to c) (λ _. v)
        (λ _. record {
          updates =
              rename_rules-All from to (IsSound next) c.updates []
                (All-map (λ e h. rename-IsSound from to c.declared_instances e h) c.updates
                  v.updates)
                tt;
          inits =
              rename_rules-All from to (IsSound next) once []
                (rename_rules-All from to
                  (λ e. IsSound next (rename_at from to e.0, rename_update from to e.1)) c.inits []
                  (All-map
                    (λ e h.
                      subst (IsSound next)
                        (ap (λ i. (i, rename_update from to (rename_update from to e.1)))
                          (sym (rename_at-twice from to e.0)))
                        (subst (λ w. IsSound next (rename_at from to e.0, w))
                          (sym (rename_update-twice from to e.1))
                          (rename-IsSound from to c.declared_instances e h)))
                    c.inits v.inits)
                  tt)
                tt;
          update_keys = rename_rules-HasKeys from to c.updates [] tt;
          init_keys = rename_rules-HasKeys from to once [] tt;
        })

  Step-Inv : {b c : Context D} → Step b c → Inv b → Inv c
  Step-Inv (declares ds c) v = Inv-declare_all ds c v
  Step-Inv (sets w u c) v = Inv-set_update w u c v
  Step-Inv (inits w u c) v = Inv-set_init w u c v
  Step-Inv (types k t c) v = Inv-declare_type k t c v
  Step-Inv (renames from to c) v = Inv-rename from to c v

  -- Whatever a program does, failures included: each rule stands under the instance that it computes, has
  -- passed the checks, and its result is declared; no two updates stand under the same key, and no two
  -- inits.
  pub context-Inv : (c : Context D) → Reach c → Inv c
  unfolding HasKeys
  context-Inv c here = record { updates = tt; inits = tt; update_keys = tt; init_keys = tt }
  context-Inv c (next {b} r s) = Step-Inv s (context-Inv b r)
