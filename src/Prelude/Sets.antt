-- ===== src/Prelude/Sets.antt =====
-- `std::set` as a list without repetition, over a Boolean equality.
use mathlib.Core.Path.{◌≡◌, refl}
use mathlib.Core.Logic.{◌↔◌, ◌≢◌}
use mathlib.Core.Bool.{Bool, true, false, ◌||◌}
use mathlib.Core.List.{List, [], ◌∷◌}
use native.Mathlib.Omega.{arith}
use cxsom.Prelude.Tests.{if◌then◌else◌}

pub record Eq {ℓ} (A : Type ℓ) : Type ℓ where
  pub beq : A → A → Bool
  pub beq_iff : (a b : A) → (beq a b ≡ true) ↔ (a ≡ b)

-- The equality of the type's instance.
infix 50 ◌=?◌
abbrev pub ◌=?◌ {ℓ} : {A : Type ℓ} ⦃e : Eq A⦄ → A → A → Bool
◌=?◌ ⦃e⦄ = e.beq

module _ {ℓ} {A : Type ℓ} ⦃e : Eq A⦄ where
  -- `find(a) != end()`
  unfoldable pub contains : A → List A → Bool
  contains a [] = false
  contains a (x ∷ xs) = (x =? a) || contains a xs

  unfoldable pub insert : A → List A → List A
  insert a xs = if contains a xs then xs else a ∷ xs

  unfoldable pub insert_all : List A → List A → List A
  insert_all [] xs = xs
  insert_all (a ∷ rest) xs = insert_all rest (insert a xs)

  unfoldable pub erase : A → List A → List A
  erase a [] = []
  erase a (x ∷ xs) = let rest = erase a xs in if x =? a then rest else x ∷ rest

  -- Membership after an insertion, and after that of a whole range.
  pub contains-nil : (a : A) → contains a [] ≡ false
  unfolding contains
  contains-nil a = refl

  pub contains-insert :
      (a b : A) (xs : List A) → contains b (insert a xs) ≡ ((a =? b) || contains b xs)
  unfolding insert contains
  contains-insert a b xs = ground (arith, e.beq_iff a b)

  pub contains-insert_all :
      (as' : List A) (b : A) (xs : List A)
      → contains b xs ≡ true
      → contains b (insert_all as' xs) ≡ true
  unfolding insert_all
  contains-insert_all [] b xs h = h
  contains-insert_all (a ∷ rest) b xs h =
      contains-insert_all rest b (insert a xs) (ground (arith, contains-insert a b xs))

  insert-ne-nil : (a : A) (xs : List A) → insert a xs ≡ [] → ⊥
  unfolding insert contains
  insert-ne-nil a [] h = ground arith
  insert-ne-nil a (x ∷ xs) h = ground arith

  insert_all-eq-nil : (more xs : List A) → insert_all more xs ≡ [] → xs ≡ []
  unfolding insert_all
  insert_all-eq-nil [] xs h = h
  insert_all-eq-nil (a ∷ rest) xs h =
      absurd (insert-ne-nil a xs (insert_all-eq-nil rest (insert a xs) h))

  -- A set into which something was put is not empty.
  pub insert_all-ne-nil : (more xs : List A) → more ≢ [] → insert_all more xs ≢ []
  unfolding insert_all
  insert_all-ne-nil [] xs h e = h refl
  insert_all-ne-nil (a ∷ rest) xs h e = insert-ne-nil a xs (insert_all-eq-nil rest (insert a xs) e)

  pub contains-erase :
      (a b : A) (xs : List A) → contains a (erase b xs) ≡ (if b =? a then false else contains a xs)
  unfolding contains erase
  contains-erase a b [] = ground arith
  contains-erase a b (x ∷ xs) =
      ground (arith, contains-erase a b xs, e.beq_iff x b, e.beq_iff x a, e.beq_iff b a)
