-- ===== src/Rules/Moving.antt =====
-- cxsom/src/cxsom-rules.hpp: no rule is lost by `context::rename`.
use cxsom.Prelude.{
  ◌≡◌, refl, sym, ap, subst, ◌∙◌, true, false, ◌&&◌, Option, none, some, List, [], ◌∷◌, ◌=?◌, find,
  All, All-map, arith, inl, inr, Bool-cases, Option-cases,
}
use cxsom.Rules.{ValueKey, ValueAtKey, Update, key_Eq, at_key_Eq}
use cxsom.Rules.Context.{Context}
use cxsom.Rules.Renaming.{rename_at, rename_update, is_ruled, rename_rules, rename, clashes}
use cxsom.Rules.Keeping.{HasKeys, IsClear, find-rename_rules}
use cxsom.Rules.Stored.{Rule, rename_rules-All, rename_rules-HasKeys}
use cxsom.Rules.Sound.{Reach, context-Inv, rename_at-twice, rename_update-twice}

away_ne :
    (from to : ValueKey) (k : ValueAtKey)
    → (from =? to) ≡ false
    → (from =? (rename_at from to k).key) ≡ false
unfolding rename_at
away_ne from to k h = ground (arith, h, key_Eq.beq_iff k.key from, key_Eq.beq_iff from k.key)

away_eq :
    (from to : ValueKey) (k : ValueAtKey)
    → (from =? to) ≡ true
    → (from =? k.key) ≡ false
    → (from =? (rename_at from to k).key) ≡ false
unfolding rename_at
away_eq from to k q h = ground (arith, h, key_Eq.beq_iff k.key from, key_Eq.beq_iff from k.key)

All-all : {A : Type 0} {P : A → Type 0} → ((x : A) → P x) → (xs : List A) → All P xs
All-all f [] = tt
All-all f (x ∷ xs) = (f x, All-all f xs)

module _ {D : Type 0} where
  -- A rule that was found under a key is found, renamed, under the new key.
  abbrev pub MovedTo : ValueKey → ValueKey → ValueAtKey → List (Rule D) → Option (Update D) → Type 0
  MovedTo from to k m' none = Unit
  MovedTo from to k m' (some u) = find (rename_at from to k) m' ≡ some (rename_update from to u)

  abbrev pub Moved : ValueKey → ValueKey → ValueAtKey → List (Rule D) → List (Rule D) → Type 0
  Moved from to k m m' = MovedTo from to k m' (find k m)

  is_ruled-All :
      (k : ValueKey) (m : List (Rule D))
      → is_ruled k m ≡ false
      → All (λ e. (k =? e.0.key) ≡ false) m
  unfolding is_ruled
  is_ruled-All k [] h = tt
  is_ruled-All k ((v, u) ∷ rest) h = (ground (arith, h), is_ruled-All k rest (ground (arith, h)))

  All-is_ruled :
      (k : ValueKey) (m : List (Rule D))
      → All (λ e. (k =? e.0.key) ≡ false) m
      → is_ruled k m ≡ false
  unfolding is_ruled
  All-is_ruled k [] h = refl
  All-is_ruled k ((v, u) ∷ rest) h = ground (arith, h.0, All-is_ruled k rest h.1)

  -- After a renaming, nothing is left under the old key.
  rename_rules-IsClear :
      (from to : ValueKey) (m : List (Rule D))
      → IsClear from to m
      → IsClear from to (rename_rules from to m [])
  rename_rules-IsClear from to m h =
      let out = rename_rules from to m [] in
      let P : Rule D → Type 0 = λ e. (from =? e.0.key) ≡ false in
      let none_left : is_ruled from out ≡ false =
        All-is_ruled from out (elim (Bool-cases (from =? to)) [
          | inr n ↦ rename_rules-All from to P m [] (All-all (λ e. away_ne from to e.0 n) m) tt
          | inl q ↦
              let r : is_ruled from m ≡ false =
                (let p = (key_Eq.beq_iff from to).0 q in
                  let h' : (is_ruled from m && is_ruled from m) ≡ false =
                    subst (λ k. (is_ruled from m && is_ruled k m) ≡ false) (sym p) h in
                  ground arith) in
              rename_rules-All from to P m []
                (All-map (λ e g. away_eq from to e.0 q g) m (is_ruled-All from m r)) tt
        ]) in
      ground arith

  rename_rules-Moved :
      (from to : ValueKey) (k : ValueAtKey) (m : List (Rule D))
      → HasKeys m
      → IsClear from to m
      → Moved from to k m (rename_rules from to m [])
  rename_rules-Moved from to k m h c = elim (Option-cases (find k m)) [
    | inl e ↦ subst (MovedTo from to k (rename_rules from to m [])) (sym e) tt
    | inr (u, e) ↦
        subst (MovedTo from to k (rename_rules from to m [])) (sym e)
          (find-rename_rules from to k u m [] h c e)
  ]

  twice-Moved :
      (from to : ValueKey) (k : ValueAtKey) (m : List (Rule D))
      → HasKeys m
      → IsClear from to m
      → Moved from to k m (rename_rules from to (rename_rules from to m []) [])
  unfolding HasKeys
  twice-Moved from to k m h c =
      let once = rename_rules from to m [] in
      elim (Option-cases (find k m)) [
        | inl e ↦ subst (MovedTo from to k (rename_rules from to once [])) (sym e) tt
        | inr (u, e) ↦
            let f = find-rename_rules from to k u m [] h c e in
            let g =
              find-rename_rules from to (rename_at from to k) (rename_update from to u) once []
                (rename_rules-HasKeys from to m [] tt) (rename_rules-IsClear from to m c) f in
            let q : find (rename_at from to k) (rename_rules from to once [])
                ≡ some (rename_update from to u) =
              subst (λ i. find i (rename_rules from to once []) ≡ some (rename_update from to u))
                (rename_at-twice from to k) (g ∙ ap some (rename_update-twice from to u)) in
            subst (MovedTo from to k (rename_rules from to once [])) (sym e) q
      ]

  -- When a program renames a variable and this does not throw, every update and every init that it had set
  -- is found under the new key, renamed.
  pub rename-Moved :
      (from to : ValueKey) (k j : ValueAtKey) (c c' : Context D)
      → Reach c
      → rename from to c ≡ (none, c')
      → Moved from to k c.updates c'.updates × Moved from to j c.inits c'.inits
  unfolding rename
  rename-Moved from to k j c c' r h =
      let v = context-Inv c r in
      elim (Bool-cases (clashes from to c)) [
        | inl e ↦ ground arith
        | inr e ↦
            let q : c'.updates ≡ rename_rules from to c.updates [] = ground arith in
            let p : c'.inits ≡ rename_rules from to (rename_rules from to c.inits []) [] =
              ground arith in
            (
              rw q (rename_rules-Moved from to k c.updates v.update_keys (ground (arith, e))),
              rw p (twice-Moved from to j c.inits v.init_keys (ground (arith, e))),
            )
      ]
