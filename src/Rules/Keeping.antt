-- ===== src/Rules/Keeping.antt =====
-- cxsom/src/cxsom-rules.hpp: what `context::rename` does to the rules and to the declared instances.
use cxsom.Prelude.{
  ◌≡◌, ◌≢◌, refl, sym, subst, ◌∙◌, true, false, ◌&&◌, ◌||◌, some, List, [], ◌∷◌, ◌=?◌, find, store,
  find-store, insert, erase, contains, contains-insert, contains-erase, All, arith, ◌⊎◌, inl, inr,
  Bool-cases,
}
use cxsom.Rules.{ValueKey, ValueAtKey, Update, key_Eq, at_key_Eq}
use cxsom.Rules.Renaming.{
  rename_at, rename_update, is_ruled, to_rename, rename_instances, rename_rules,
}

-- The declared instances: one that does not move stays, and one that moves is there under its new key.
rename_instances-kept :
    (to : ValueKey) (vs : List ValueAtKey) (k : ValueAtKey) (declared : List ValueAtKey)
    → (k.key ≡ to) ⊎ All (λ v. (v =? k) ≡ false) vs
    → contains k declared ≡ true
    → contains k (rename_instances to vs declared) ≡ true
unfolding rename_instances
rename_instances-kept to [] k declared h c = c
rename_instances-kept to (v ∷ rest) k declared (inl h) c =
    rename_instances-kept to rest k (insert (record v { key = to }) (erase v declared)) (inl h) (
      ground (
        arith,
        contains-insert (record v { key = to }) k (erase v declared),
        contains-erase k v declared,
        at_key_Eq.beq_iff (record v { key = to }) k,
        at_key_Eq.beq_iff v k,
      ))
rename_instances-kept to (v ∷ rest) k declared (inr h) c =
    rename_instances-kept to rest k (insert (record v { key = to }) (erase v declared)) (inr h.1) (
      ground (
        arith,
        h.0,
        contains-insert (record v { key = to }) k (erase v declared),
        contains-erase k v declared,
      ))

rename_instances-moved :
    (to : ValueKey) (vs : List ValueAtKey) (k : ValueAtKey) (declared : List ValueAtKey)
    → contains k vs ≡ true
    → contains (record k { key = to }) (rename_instances to vs declared) ≡ true
unfolding rename_instances contains
rename_instances-moved to [] k declared h = ground arith
rename_instances-moved to (v ∷ rest) k declared h =
    let next = insert (record v { key = to }) (erase v declared) in
    let w : ValueAtKey = record k { key = to } in
    elim (Bool-cases (v =? k)) [
      | inl e ↦ rename_instances-kept to rest w next (inl refl) (
          ground (
            arith,
            at_key_Eq.beq_iff v k,
            at_key_Eq.beq_iff (record v { key = to }) w,
            contains-insert (record v { key = to }) w (erase v declared),
          ))
      | inr e ↦ rename_instances-moved to rest k next (ground arith)
    ]

to_rename-all :
    (from : ValueKey) (vs : List ValueAtKey) (k : ValueAtKey)
    → (k.key =? from) ≡ false
    → All (λ v. (v =? k) ≡ false) (to_rename from vs)
unfolding to_rename
to_rename-all from [] k h = tt
to_rename-all from (v ∷ rest) k h =
    ground (arith, h, to_rename-all from rest k h, at_key_Eq.beq_iff v k)

to_rename-found :
    (from : ValueKey) (vs : List ValueAtKey) (k : ValueAtKey)
    → (k.key =? from) ≡ true
    → contains k vs ≡ true
    → contains k (to_rename from vs) ≡ true
unfolding to_rename contains
to_rename-found from [] k h c = ground arith
to_rename-found from (v ∷ rest) k h c =
    ground (arith, h, to_rename-found from rest k h, at_key_Eq.beq_iff v k)

-- Every declared instance is declared under its new key.
pub rename_instances-contains :
    (from to : ValueKey) (k : ValueAtKey) (declared : List ValueAtKey)
    → contains k declared ≡ true
    → contains (rename_at from to k) (rename_instances to (to_rename from declared) declared) ≡ true
unfolding rename_at
rename_instances-contains from to k declared c = elim (Bool-cases (k.key =? from)) [
  | inl e ↦ rw e (
      rename_instances-moved to (to_rename from declared) k declared
        (to_rename-found from declared k e c))
  | inr e ↦ rw e (
      rename_instances-kept to (to_rename from declared) k declared
        (inr (to_rename-all from declared k e)) c)
]

at_key-ne : (v k : ValueAtKey) → (v ≢ k) → (v =? k) ≡ false
at_key-ne v k h = elim (Bool-cases (v =? k)) [
  | inl e ↦ absurd (h ((at_key_Eq.beq_iff v k).0 e))
  | inr e ↦ e
]

ne-at_key : (v k : ValueAtKey) → (v =? k) ≡ false → v ≢ k
ne-at_key v k h e = let q = (at_key_Eq.beq_iff v k).1 e in ground (arith, h, q)

rename_at-ne :
    (from to : ValueKey) (v k : ValueAtKey)
    → (v =? k) ≡ false
    → (((from =? k.key) || (from =? v.key)) && ((to =? k.key) || (to =? v.key))) ≡ false
    → (rename_at from to v =? rename_at from to k) ≡ false
unfolding rename_at
rename_at-ne from to v k h c =
    let n = ne-at_key v k h in
    at_key-ne (rename_at from to v) (rename_at from to k) (λ e. elim (Bool-cases (v.key =? from)) [
      | inl f ↦ elim (Bool-cases (k.key =? from)) [
        | inl g ↦ n (
            let p = (key_Eq.beq_iff v.key from).0 f in
            let q = (key_Eq.beq_iff k.key from).0 g in ground arith)
        | inr g ↦
            (let p = (key_Eq.beq_iff from v.key).1 (sym ((key_Eq.beq_iff v.key from).0 f)) in
              let q = (key_Eq.beq_iff to k.key).1 (ground arith) in ground (arith, c, p, q))
      ]
      | inr f ↦ elim (Bool-cases (k.key =? from)) [
        | inl g ↦
            (let p = (key_Eq.beq_iff from k.key).1 (sym ((key_Eq.beq_iff k.key from).0 g)) in
              let q = (key_Eq.beq_iff to v.key).1 (ground arith) in ground (arith, c, p, q))
        | inr g ↦ n (ground arith)
      ]
    ])

module _ {D : Type 0} where
  -- The keys of a map are different.
  unfoldable pub HasKeys : List (ValueAtKey × Update D) → Type 0
  HasKeys [] = Unit
  HasKeys ((k, u) ∷ rest) = All (λ e. (e.0 =? k) ≡ false) rest × HasKeys rest

  -- A renaming that moves no two rules to the same key.
  abbrev pub IsClear : ValueKey → ValueKey → List (ValueAtKey × Update D) → Type 0
  IsClear from to m = (is_ruled from m && is_ruled to m) ≡ false

  rename_rules-other :
      (from to : ValueKey) (j : ValueAtKey) (m made : List (ValueAtKey × Update D))
      → All (λ e. (rename_at from to e.0 =? j) ≡ false) m
      → find j (rename_rules from to m made) ≡ find j made
  unfolding rename_rules
  rename_rules-other from to j [] made h = refl
  rename_rules-other from to j ((v, u) ∷ rest) made h =
      let next = store (rename_at from to v) (rename_update from to u) made in
      rename_rules-other from to j rest next h.1
      ∙ ground (arith, h.0, find-store (rename_at from to v) j (rename_update from to u) made)

  rename_at-apart :
      (from to : ValueKey) (k : ValueAtKey) (m : List (ValueAtKey × Update D))
      → All (λ e. (e.0 =? k) ≡ false) m
      → (((from =? k.key) || is_ruled from m) && ((to =? k.key) || is_ruled to m)) ≡ false
      → All (λ e. (rename_at from to e.0 =? rename_at from to k) ≡ false) m
  unfolding rename_at is_ruled
  rename_at-apart from to k [] h c = tt
  rename_at-apart from to k ((v, u) ∷ rest) h c = (
    rename_at-ne from to v k h.0 (ground (arith, c)),
    rename_at-apart from to k rest h.1 (ground (arith, c)),
  )

  -- What is renamed is found under its new key.
  pub find-rename_rules :
      (from to : ValueKey) (k : ValueAtKey) (u : Update D) (m made : List (ValueAtKey × Update D))
      → HasKeys m
      → IsClear from to m
      → find k m ≡ some u
      → find (rename_at from to k) (rename_rules from to m made) ≡ some (rename_update from to u)
  unfolding rename_rules HasKeys find is_ruled
  find-rename_rules from to k u [] made h c e = ground arith
  find-rename_rules from to k u ((v, w) ∷ rest) made h c e =
      let j = rename_at from to v in
      let next = store j (rename_update from to w) made in
      elim (Bool-cases (v =? k)) [
        | inr f ↦ find-rename_rules from to k u rest next h.1 (ground (arith, c)) (ground arith)
        | inl f ↦
            let q : v ≡ k = (at_key_Eq.beq_iff v k).0 f in
            let g : w ≡ u = ground arith in
            let a = rename_at-apart from to v rest h.0 (ground (arith, c)) in
            subst
              (λ i.
                find (rename_at from to i) (rename_rules from to rest next)
                ≡ some (rename_update from to u))
              q
              (rename_rules-other from to j rest next a
                ∙ ground (
                  arith,
                  find-store j j (rename_update from to w) made,
                  at_key_Eq.beq_iff j j,
                  g,
                ))
      ]
