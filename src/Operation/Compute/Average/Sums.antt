-- ===== src/Operation/Compute/Average/Sums.antt =====
-- cxsom/src/cxsomOperation.hpp: the sums that `Average` keeps, against the lists of what was read.
use cxsom.Prelude.{
  ℕ, zero, suc, ◌+◌, ◌≡◌, refl, ap, ◌∙◌, true, some, ◌>>=◌, List, [], ◌∷◌, map, arith, length, ◌<◌,
  ◌≤◌,
}
use cxsom.Update.{u32}
use cxsom.Types.{is_map, size}
use cxsom.Types.Values.{Value, replicate}
use cxsom.Operation.Compute.{Doubles}
use cxsom.Operation.Compute.Running.{reads}
use cxsom.Operation.Compute.Average.{
  Members, fill, check_internal_allocations, on_read_out_arg, on_read_in_arg, add_to,
}

-- Values that are maps of a number of elements of one double, and their contents.
abbrev pub AreMaps : {D : Type 0} → ℕ → List (ℕ × Value D) → List (List D) → Type 0
AreMaps n [] [] = Unit
AreMaps n ((k, v) ∷ rest) (x ∷ xs) =
    (is_map v.type ≡ true)
    × (size v.type ≡ n)
    × (v.content ≡ x)
    × (length x ≡ n)
    × AreMaps n rest xs
AreMaps n _ _ = ⊥

module _ {D : Type 0} (doubles : Doubles D) where
  abbrev pub plus : List D → List D → List D
  plus [] ys = []
  plus (x ∷ xs) [] = x ∷ xs
  plus (x ∷ xs) (y ∷ ys) = doubles.add x y ∷ plus xs ys

  -- Lists added one after the other.
  abbrev pub total : List D → List (List D) → List D
  total sum [] = sum
  total sum (x ∷ xs) = total (plus sum x) xs

  pub length-plus : (xs ys : List D) → length (plus xs ys) ≡ length xs
  length-plus [] ys = refl
  length-plus (x ∷ xs) [] = refl
  length-plus (x ∷ xs) (y ∷ ys) = omega (arith, length-plus xs ys)

  pub length-total : (xs : List D) (ys : List (List D)) → length (total xs ys) ≡ length xs
  length-total xs [] = refl
  length-total xs (y ∷ ys) = length-total (plus xs y) ys ∙ length-plus xs y

  pub length-map : (f : D → D) (xs : List D) → length (map f xs) ≡ length xs
  length-map f [] = refl
  length-map f (x ∷ xs) = omega (arith, length-map f xs)

  pub length-replicate : (n : ℕ) (x : D) → length (replicate n x) ≡ n
  unfolding replicate
  length-replicate zero x = refl
  length-replicate (suc n) x = omega (arith, length-replicate n x)

  pub fill-eq : (xs : List D) → fill doubles xs ≡ replicate (length xs) doubles.zero
  unfolding replicate
  fill-eq [] = refl
  fill-eq (x ∷ xs) = ap (λ ys. doubles.zero ∷ ys) (fill-eq xs)

  pub add_to-plus :
      (sum xs : List D) → length xs ≤ length sum → add_to doubles sum xs ≡ some (plus sum xs)
  add_to-plus [] [] h = refl
  add_to-plus (s ∷ sum) [] h = refl
  add_to-plus [] (x ∷ xs) h = absurd (omega arith)
  add_to-plus (s ∷ sum) (x ∷ xs) h = rw (add_to-plus sum xs (omega arith)) refl

  read_out-plus :
      (k : ℕ) (v : Value D) (x : List D) (s : Members D)
      → is_map v.type ≡ true
      → v.content ≡ x
      → s.has_type ≡ true
      → length x ≤ length s.sum_out
      → s.nb_out + 1 < 4294967296
      → on_read_out_arg doubles k v s
        ≡ some (record s { sum_out = plus s.sum_out x; nb_out = s.nb_out + 1 })
  unfolding on_read_out_arg check_internal_allocations
  read_out-plus k v x s m c t l b =
      let small : u32 (s.nb_out + 1) ≡ s.nb_out + 1 = omega arith in
      ground (arith, m, c, t, small, add_to-plus s.sum_out x l)

  pub reads-out :
      (n : ℕ) (args : List (ℕ × Value D)) (xs : List (List D)) (s : Members D)
      → AreMaps n args xs
      → s.has_type ≡ true
      → length s.sum_out ≡ n
      → s.nb_out + length xs < 4294967296
      → reads (on_read_out_arg doubles) args s
        ≡ some (record s { sum_out = total s.sum_out xs; nb_out = s.nb_out + length xs })
  reads-out n [] [] s h t l b = ap (λ k. some (record s { nb_out = k })) (omega arith)
  reads-out n [] (x ∷ xs) s h t l b = absurd h
  reads-out n (a ∷ rest) [] s h t l b = absurd h
  reads-out n ((k, v) ∷ rest) (x ∷ xs) s h t l b =
      let s' = record s { sum_out = plus s.sum_out x; nb_out = s.nb_out + 1 } in
      let first = read_out-plus k v x s h.0 h.2 t (omega (arith, h.3, l)) (omega arith) in
      let more = reads-out n rest xs s' h.4 t (length-plus s.sum_out x ∙ l) (omega arith) in
      ap (λ o. o >>= reads (on_read_out_arg doubles) rest) first
      ∙ more
      ∙ ap (λ j. some (record s { sum_out = total (plus s.sum_out x) xs; nb_out = j }))
          (omega arith)

  read_in-plus :
      (k : ℕ) (v : Value D) (x : List D) (s : Members D)
      → is_map v.type ≡ true
      → v.content ≡ x
      → s.has_type ≡ true
      → length x ≤ length s.sum_in
      → s.nb_in + 1 < 4294967296
      → on_read_in_arg doubles k v s
        ≡ some (record s { sum_in = plus s.sum_in x; nb_in = s.nb_in + 1 })
  unfolding on_read_in_arg check_internal_allocations
  read_in-plus k v x s m c t l b =
      let small : u32 (s.nb_in + 1) ≡ s.nb_in + 1 = omega arith in
      ground (arith, m, c, t, small, add_to-plus s.sum_in x l)

  pub reads-in :
      (n : ℕ) (args : List (ℕ × Value D)) (xs : List (List D)) (s : Members D)
      → AreMaps n args xs
      → s.has_type ≡ true
      → length s.sum_in ≡ n
      → s.nb_in + length xs < 4294967296
      → reads (on_read_in_arg doubles) args s
        ≡ some (record s { sum_in = total s.sum_in xs; nb_in = s.nb_in + length xs })
  reads-in n [] [] s h t l b = ap (λ k. some (record s { nb_in = k })) (omega arith)
  reads-in n [] (x ∷ xs) s h t l b = absurd h
  reads-in n (a ∷ rest) [] s h t l b = absurd h
  reads-in n ((k, v) ∷ rest) (x ∷ xs) s h t l b =
      let s' = record s { sum_in = plus s.sum_in x; nb_in = s.nb_in + 1 } in
      let first = read_in-plus k v x s h.0 h.2 t (omega (arith, h.3, l)) (omega arith) in
      let more = reads-in n rest xs s' h.4 t (length-plus s.sum_in x ∙ l) (omega arith) in
      ap (λ o. o >>= reads (on_read_in_arg doubles) rest) first
      ∙ more
      ∙ ap (λ j. some (record s { sum_in = total (plus s.sum_in x) xs; nb_in = j })) (omega arith)
