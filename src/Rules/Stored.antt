-- ===== src/Rules/Stored.antt =====
-- cxsom/src/cxsom-rules.hpp: rules that are put in a map and renamed.
use cxsom.Prelude.{
  ◌≡◌, refl, sym, ap, subst, ◌∙◌, true, false, none, List, [], ◌∷◌, map, ◌=?◌, store, contains, All,
  arith, if_split,
}
use cxsom.Rules.{ValueKey, ValueAtKey, Data, Update, key_Eq, at_key_Eq}
use cxsom.Rules.Context.{check_each, check_args, check_update}
use cxsom.Rules.Renaming.{
  rename_at, rename_data, rename_update, to_rename, rename_instances, rename_rules,
}
use cxsom.Rules.Keeping.{HasKeys, rename_instances-contains}

abbrev pub Rule : Type 0 → Type 0
Rule D = ValueAtKey × Update D

-- A rule that stands under what it computes, that has passed the checks, and whose result is declared.
abbrev pub IsSound : {D : Type 0} → List ValueAtKey → Rule D → Type 0
IsSound declared (k, u) =
    (u.dest.id ≡ k) × (check_update u.dest u ≡ none) × (contains k declared ≡ true)

rename_at-date : (from to : ValueKey) (k : ValueAtKey) → (rename_at from to k).date ≡ k.date
unfolding rename_at
rename_at-date from to k = ground arith

check_each-map :
    (from to : ValueKey) (args : List Data)
    → check_each (map (rename_data from to) args) ≡ check_each args
unfolding check_each
check_each-map from to [] = refl
check_each-map from to (a ∷ rest) =
    ground (arith, rename_at-date from to a.id, check_each-map from to rest)

module _ {D : Type 0} where
  pub store-All :
      (P : Rule D → Type 0) (k : ValueAtKey) (u : Update D) (m : List (Rule D))
      → All P m
      → P (k, u)
      → All P (store k u m)
  unfolding store
  store-All P k u [] h p = (p, tt)
  store-All P k u ((j, w) ∷ rest) h p =
      let more = store-All P k u rest h.1 p in
      if_split (All P) (j =? k)
        (λ e. (subst (λ i. P (i, u)) (sym ((at_key_Eq.beq_iff j k).0 e)) p, h.1)) (λ _. (h.0, more))

  store-ne :
      (i k : ValueAtKey) (u : Update D) (m : List (Rule D))
      → (k =? i) ≡ false
      → All (λ e. (e.0 =? i) ≡ false) m
      → All (λ e. (e.0 =? i) ≡ false) (store k u m)
  store-ne i k u m n h = store-All (λ e. (e.0 =? i) ≡ false) k u m h n

  pub store-HasKeys :
      (k : ValueAtKey) (u : Update D) (m : List (Rule D)) → HasKeys m → HasKeys (store k u m)
  unfolding store HasKeys
  store-HasKeys k u [] h = (tt, tt)
  store-HasKeys k u ((j, w) ∷ rest) h =
      let more = store-HasKeys k u rest h.1 in
      if_split HasKeys (j =? k) (λ e. h)
        (λ e. (
          store-ne j k u rest (ground (arith, e, at_key_Eq.beq_iff j k, at_key_Eq.beq_iff k j)) h.0,
          more,
        ))

  pub rename_rules-All :
      (from to : ValueKey) (P : Rule D → Type 0) (m made : List (Rule D))
      → All (λ e. P (rename_at from to e.0, rename_update from to e.1)) m
      → All P made
      → All P (rename_rules from to m made)
  unfolding rename_rules
  rename_rules-All from to P [] made h g = g
  rename_rules-All from to P ((k, u) ∷ rest) made h g =
      rename_rules-All from to P rest (store (rename_at from to k) (rename_update from to u) made)
        h.1 (store-All P (rename_at from to k) (rename_update from to u) made g h.0)

  pub rename_rules-HasKeys :
      (from to : ValueKey) (m made : List (Rule D))
      → HasKeys made
      → HasKeys (rename_rules from to m made)
  unfolding rename_rules
  rename_rules-HasKeys from to [] made g = g
  rename_rules-HasKeys from to ((k, u) ∷ rest) made g =
      rename_rules-HasKeys from to rest (store (rename_at from to k) (rename_update from to u) made)
        (store-HasKeys (rename_at from to k) (rename_update from to u) made g)

  check_update-rename :
      (from to : ValueKey) (u : Update D)
      → check_update (rename_data from to u.dest) (rename_update from to u) ≡ check_update u.dest u
  unfolding check_update check_args
  check_update-rename from to u =
      ground (arith, rename_at-date from to u.dest.id, check_each-map from to u.args)

  pub rename-IsSound :
      (from to : ValueKey) (declared : List ValueAtKey) (e : Rule D)
      → IsSound declared e
      → IsSound
          (rename_instances to (to_rename from declared) declared)
          (rename_at from to e.0, rename_update from to e.1)
  rename-IsSound from to declared (k, u) (d, c, i) = (
    ap (rename_at from to) d,
    check_update-rename from to u ∙ c,
    rename_instances-contains from to k declared i,
  )
