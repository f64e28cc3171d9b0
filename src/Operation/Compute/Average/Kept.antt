-- ===== src/Operation/Compute/Average/Kept.antt =====
-- cxsom/src/cxsomOperation.hpp: what `Average` keeps between executions, and what an execution starts
-- from.
use cxsom.Prelude.{
  ℕ, ◌+◌, ◌≡◌, refl, ap, ◌∙◌, Bool, true, false, ◌>>=◌, List, [], ◌∷◌, map, if◌then◌else◌, ◌==◌,
  arith, length, ◌⊎◌, inl, inr, Bool-cases,
}
use cxsom.Types.{DataType, is_map, size}
use cxsom.Types.Values.{Value, replicate}
use cxsom.Operation.Compute.{Doubles}
use cxsom.Operation.Compute.Running.{reads}
use cxsom.Operation.Compute.Average.{
  Members, allocate, fill, check_internal_allocations, on_computation_start, on_read_out_arg,
  on_read_in_arg,
}
use cxsom.Operation.Compute.Average.Sums.{AreMaps, plus, total, fill-eq}

module _ {D : Type 0} (doubles : Doubles D) (n : ℕ) where
  abbrev pub zeros : List D
  zeros = replicate n doubles.zero

  -- The sum of all arguments, in the order of the code, and its division by their number.
  abbrev pub sum_of : List (List D) → List (List D) → List D
  sum_of xs ys =
      if length ys == 0
      then total doubles zeros xs
      else plus doubles (total doubles zeros xs) (total doubles zeros ys)

  abbrev pub average : List (List D) → List (List D) → List D
  average xs ys =
      map
        (λ x.
          doubles.mul x (doubles.div (doubles.of_nat 1) (doubles.of_nat (length xs + length ys))))
        (sum_of xs ys)

  -- The members before the out-arguments have been read, and after.
  pub data Kept (ys : List (List D)) : Bool → Members D → Type 0 where
    first :
        (s : Members D)
        → s.sum_out_computed ≡ false
        → (s.has_type ≡ false)
          ⊎ ((s.has_type ≡ true) × (length s.sum_in ≡ n) × (length s.sum_out ≡ n))
        → Kept ys false s
    later :
        (s : Members D)
        → s.sum_out_computed ≡ true
        → s.has_type ≡ true
        → length s.sum_in ≡ n
        → s.sum_out ≡ total doubles zeros ys
        → s.nb_out ≡ length ys
        → Kept ys true s

  -- The members once the out-arguments have been read.
  abbrev pub ready : List D → ℕ → Members D
  ready sum nb = record {
    sum_out = sum;
    nb_out = nb;
    sum_out_computed = true;
    sum_in = zeros;
    nb_in = 0;
    has_type = true;
  }

  pub start-first :
      (s : Members D)
      → s.sum_out_computed ≡ false
      → (s.has_type ≡ false)
        ⊎ ((s.has_type ≡ true) × (length s.sum_in ≡ n) × (length s.sum_out ≡ n))
      → allocate doubles n (on_computation_start doubles s) ≡ ready zeros 0
  unfolding on_computation_start
  start-first s c (inl t) = ground (arith, c, t)
  start-first s c (inr (t, i, o)) =
      let fi : fill doubles s.sum_in ≡ zeros =
        fill-eq doubles s.sum_in ∙ ap (λ k. replicate k doubles.zero) i in
      let fo : fill doubles s.sum_out ≡ zeros =
        fill-eq doubles s.sum_out ∙ ap (λ k. replicate k doubles.zero) o in
      ground (arith, c, t, fi, fo)

  pub start-later :
      (ys : List (List D)) (s : Members D)
      → s.sum_out_computed ≡ true
      → s.has_type ≡ true
      → length s.sum_in ≡ n
      → s.sum_out ≡ total doubles zeros ys
      → s.nb_out ≡ length ys
      → on_computation_start doubles s ≡ ready (total doubles zeros ys) (length ys)
  unfolding on_computation_start
  start-later ys s c t i o k =
      let fi : fill doubles s.sum_in ≡ zeros =
        fill-eq doubles s.sum_in ∙ ap (λ j. replicate j doubles.zero) i in
      ground (arith, c, t, fi, o, k)

  allocate-check :
      (t : DataType) (s : Members D)
      → is_map t ≡ true
      → size t ≡ n
      → check_internal_allocations doubles t s
        ≡ check_internal_allocations doubles t (allocate doubles n s)
  unfolding check_internal_allocations
  allocate-check t s m z = elim (Bool-cases s.has_type) [
    | inl h ↦ rw h refl
    | inr h ↦ ground (arith, h, m, z)
  ]

  -- The out-arguments and at least one in-argument are read as from allocated sums.
  pub reads-allocate :
      (outs ins : List (ℕ × Value D)) (xs ys : List (List D)) (x : List D) (s : Members D)
      → AreMaps n outs ys
      → AreMaps n ins (x ∷ xs)
      → (reads (on_read_out_arg doubles) outs s >>= reads (on_read_in_arg doubles) ins) ≡ (
          reads (on_read_out_arg doubles) outs (allocate doubles n s)
          >>= reads (on_read_in_arg doubles) ins)
  unfolding on_read_out_arg on_read_in_arg
  reads-allocate [] ((k, v) ∷ rest) xs [] x s h i = rw (allocate-check v.type s i.0 i.1) refl
  reads-allocate ((k, v) ∷ more) ins xs (y ∷ ys) x s h i = rw (allocate-check v.type s h.0 h.1) refl
  reads-allocate [] ins xs (y ∷ ys) x s h i = absurd h
  reads-allocate (a ∷ more) ins xs [] x s h i = absurd h
  reads-allocate [] [] xs [] x s h i = absurd i
