-- ===== src/Prelude/Maps.antt =====
-- `std::map` as an association list, over a Boolean equality.
use mathlib.Core.Path.{◌≡◌, refl, subst}
use mathlib.Core.Option.{Option, none, some, none-ne-some}
use mathlib.Core.List.{List, [], ◌∷◌}
use mathlib.Core.Logic.{inl, inr}
use native.Mathlib.Omega.{arith}
use cxsom.Prelude.Tests.{if◌then◌else◌, Bool-cases}
use cxsom.Prelude.Lists.{All}
use cxsom.Prelude.Sets.{Eq, ◌=?◌}

module _ {ℓ κ} {K : Type ℓ} {A : Type κ} ⦃e : Eq K⦄ where
  -- `find`
  unfoldable pub find : K → List (K × A) → Option A
  find k [] = none
  find k ((j, a) ∷ rest) = if j =? k then some a else find k rest

  -- `m[k] = a`
  unfoldable pub store : K → A → List (K × A) → List (K × A)
  store k a [] = (k, a) ∷ []
  store k a ((j, b) ∷ rest) =
      let stored = store k a rest in if j =? k then (j, a) ∷ rest else (j, b) ∷ stored

  pub find-store :
      (k j : K) (a : A) (m : List (K × A))
      → find j (store k a m) ≡ (if k =? j then some a else find j m)
  unfolding find store
  find-store k j a [] = refl
  find-store k j a ((i, b) ∷ rest) =
      ground (arith, find-store k j a rest, e.beq_iff i k, e.beq_iff i j, e.beq_iff k j)

  -- What holds of every entry holds of what is found.
  pub find-All {μ} :
      (P : K → A → Type μ) (m : List (K × A)) (k : K) (a : A)
      → All (λ e. P e.0 e.1) m
      → find k m ≡ some a
      → P k a
  unfolding find
  find-All P [] k a h e' = absurd (none-ne-some a e')
  find-All P ((j, b) ∷ rest) k a h e' = elim (Bool-cases (j =? k)) [
    | inl t ↦
        let q : b ≡ a = ground arith in
        let i : j ≡ k = (e.beq_iff j k).0 t in subst (λ x. P x a) i (subst (P j) q h.0)
    | inr f ↦ find-All P rest k a h.1 (ground arith)
  ]
