-- ===== src/Operation/Compute/MinMax/Least.antt =====
-- cxsom/src/cxsomOperation.hpp: the value that `MinMax` proposes is the least or the greatest one, by
-- the laws of `<` and `==` on doubles.
use cxsom.Prelude.{
  ◌≡◌, refl, sym, subst, ◌∙◌, Bool, true, false, List, [], ◌∷◌, ◌++◌, if◌then◌else◌, arith, All,
  All-append, All-map, Bool-cases, inl, inr, ◌⊎◌,
}
use cxsom.Operation.Compute.{Doubles}
use cxsom.Operation.Compute.MinMax.{init, update}
use cxsom.Operation.Compute.MinMax.Proposed.{best, proposed}

-- `<` on doubles, with NaN: the values that are not equal to themselves are less than nothing, and
-- nothing is less than them.
pub record IsOrdered {D : Type 0} (doubles : Doubles D) : Type 0 where
  pub irreflexive : (x : D) → doubles.less x x ≡ false
  pub asymmetric : (x y : D) → doubles.less x y ≡ true → doubles.less y x ≡ false
  pub cotransitive :
      (x y z : D)
      → doubles.equal y y ≡ true
      → doubles.less x y ≡ false
      → doubles.less y z ≡ false
      → doubles.less x z ≡ false
  pub numbers :
      (x y : D) → doubles.less x y ≡ true → (doubles.equal x x ≡ true) × (doubles.equal y y ≡ true)
  pub limits :
      (doubles.equal doubles.greatest doubles.greatest ≡ true)
      × (doubles.equal doubles.lowest doubles.lowest ≡ true)

-- A value is one of a list.
abbrev pub Among : {D : Type 0} → D → List D → Type 0
Among x [] = ⊥
Among x (y ∷ ys) = (x ≡ y) ⊎ Among x ys

Among-left : {D : Type 0} (p : D) (xs ys : List D) → Among p xs → Among p (xs ++ ys)
Among-left p [] ys h = absurd h
Among-left p (x ∷ xs) ys (inl e) = inl e
Among-left p (x ∷ xs) ys (inr h) = inr (Among-left p xs ys h)

Among-right : {D : Type 0} (p : D) (xs ys : List D) → Among p ys → Among p (xs ++ ys)
Among-right p [] ys h = h
Among-right p (x ∷ xs) ys h = inr (Among-right p xs ys h)

module _ {D : Type 0} (doubles : Doubles D) (is_min : Bool) where
  -- A value is less than another one, or greater for `max`.
  abbrev pub better : D → D → Bool
  better x y = if is_min then doubles.less x y else doubles.less y x

  update-better : (x y : D) → update doubles is_min x y ≡ (if better y x then y else x)
  update-better x y = ground arith

  best-Among : (x : D) (ys : List D) → Among (best doubles is_min x ys) (x ∷ ys)
  best-Among x [] = inl refl
  best-Among x (y ∷ ys) =
      let z = best doubles is_min (update doubles is_min x y) ys in
      elim (best-Among (update doubles is_min x y) ys) [
        | inr a ↦ inr (inr a)
        | inl e ↦ elim (Bool-cases (better y x)) [
          | inl t ↦ inr (inl (e ∙ ground (arith, t)))
          | inr t ↦ inl (e ∙ ground (arith, t))
        ]
      ]

  proposed-Among :
      (xs ys : List D)
      → Among (proposed doubles is_min false xs ys) (init doubles is_min ∷ (xs ++ ys))
  proposed-Among xs ys =
      let first = init doubles is_min in
      let b = best doubles is_min first xs in
      let c = best doubles is_min first ys in
      let q = update-better b c in
      elim (Bool-cases (better c b)) [
        | inl t ↦
            let e : update doubles is_min b c ≡ c = q ∙ rw t refl in
            subst (λ z. Among z (first ∷ (xs ++ ys))) (sym e)
              (elim (best-Among first ys) [ inl f ↦ inl f | inr h ↦ inr (Among-right c xs ys h) ])
        | inr t ↦
            let e : update doubles is_min b c ≡ b = q ∙ rw t refl in
            subst (λ z. Among z (first ∷ (xs ++ ys))) (sym e)
              (Among-left b (first ∷ xs) ys (best-Among first xs))
      ]

  module _ (laws : IsOrdered doubles) where
    better-irreflexive : (x : D) → better x x ≡ false
    better-irreflexive x = ground (arith, laws.irreflexive x)

    better-asymmetric : (x y : D) → better x y ≡ true → better y x ≡ false
    better-asymmetric x y h = ground (arith, laws.asymmetric x y, laws.asymmetric y x)

    better-cotransitive :
        (x y z : D)
        → doubles.equal y y ≡ true
        → better x y ≡ false
        → better y z ≡ false
        → better x z ≡ false
    better-cotransitive x y z n h k =
        ground (arith, laws.cotransitive x y z n, laws.cotransitive z y x n)

    -- The new value is a number, and neither the old one nor the argument is better.
    update-best :
        (x y : D)
        → doubles.equal x x ≡ true
        → let z = update doubles is_min x y in
          (doubles.equal z z ≡ true) × (better x z ≡ false) × (better y z ≡ false)
    update-best x y n = ground (
      arith,
      laws.numbers x y,
      laws.numbers y x,
      better-irreflexive x,
      better-irreflexive y,
      better-asymmetric y x,
    )

    best-All :
        (x : D) (ys : List D)
        → doubles.equal x x ≡ true
        → let z = best doubles is_min x ys in
          (doubles.equal z z ≡ true) × (better x z ≡ false) × All (λ y. better y z ≡ false) ys
    best-All x [] n = (n, better-irreflexive x, tt)
    best-All x (y ∷ ys) n =
        let x' = update doubles is_min x y in
        let z = best doubles is_min x' ys in
        let u = update-best x y n in
        let i = best-All x' ys u.0 in
        (i.0, better-cotransitive x x' z u.0 u.1 i.1, (better-cotransitive y x' z u.0 u.2 i.1, i.2))

    init-number : doubles.equal (init doubles is_min) (init doubles is_min) ≡ true
    init-number = ground (arith, laws.limits)

    -- The value that the first execution proposes: no argument is less (greater for `max`), nor is the
    -- value that the search starts with; and it is one of them.
    pub proposed-best :
        (xs ys : List D)
        → let p = proposed doubles is_min false xs ys in
          All (λ x. better x p ≡ false) (init doubles is_min ∷ (xs ++ ys))
          × Among p (init doubles is_min ∷ (xs ++ ys))
    proposed-best xs ys =
        let first = init doubles is_min in
        let b = best doubles is_min first xs in
        let c = best doubles is_min first ys in
        let p = update doubles is_min b c in
        let i = best-All first xs init-number in
        let j = best-All first ys init-number in
        let u = update-best b c i.0 in
        (
          (
            better-cotransitive first b p i.0 i.1 u.1,
            All-append (λ x. better x p ≡ false) xs ys
                (All-map (λ x h. better-cotransitive x b p i.0 h u.1) xs i.2)
                (All-map (λ x h. better-cotransitive x c p j.0 h u.2) ys j.2),
          ),
          proposed-Among xs ys,
        )
