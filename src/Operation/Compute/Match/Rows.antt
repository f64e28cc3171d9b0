-- ===== src/Operation/Compute/Match/Rows.antt =====
-- cxsom/src/cxsomOperation.hpp: with types that are accepted, `Match` stays in its arguments.
use cxsom.Prelude.{
  ℕ, zero, suc, ◌*◌, ◌≤◌, ◌≡◌, refl, sym, ◌∙◌, Option, none, some, List, [], ◌∷◌, if◌then◌else◌,
  length, arith,
}
use cxsom.Types.{Content, DataType, IsContent, content_size}
use cxsom.Types.Values.{take}
use cxsom.Operation.Compute.{Doubles}
use cxsom.Operation.Compute.ValueAt.{advance}
use cxsom.Operation.Compute.ValueAt.Bounds.{advance-length}
use cxsom.Operation.Compute.Match.{
  Members, Kernel, distance2, positive, gaussian, triangle, read_data, read_input, row_match,
  match_all,
}

-- Each double comes from the next row of weights.
abbrev pub Matched : {D : Type 0} → (List D → Option D) → ℕ → List D → List D → Type 0
Matched f dim weights [] = Unit
Matched {D} f dim weights (x ∷ out) =
    (row : List D) × (rest : List D) × (take dim weights ≡ some row)
    × (advance dim weights ≡ some rest)
    × (f row ≡ some x)
    × Matched f dim rest out

-- The function of runs is defined on runs of one length.
abbrev pub IsDefined : {D : Type 0} → Kernel D → Type 0
IsDefined {D} kernel =
    (xs ys : List D) → length xs ≡ length ys → (d : D) × (kernel.many xs ys ≡ some d)

-- What a row of weights gives for an input: the function of two doubles for an input of one double,
-- the function of runs for the others.
abbrev pub row_of : {D : Type 0} → Kernel D → Content → List D → List D → Option D
row_of kernel Content.scalar (x ∷ []) =
    λ row. elim row [ w ∷ [] ↦ some (kernel.one w x) | _ ↦ none ]
row_of kernel Content.scalar _ = λ row. none
row_of kernel Content.pos1 (x ∷ []) = λ row. elim row [ w ∷ [] ↦ some (kernel.one w x) | _ ↦ none ]
row_of kernel Content.pos1 _ = λ row. none
row_of kernel Content.pos2 xs = λ row. kernel.many row xs
row_of kernel (Content.array n) xs = λ row. kernel.many row xs

module _ {D : Type 0} where
  pub take-all : (n : ℕ) (xs : List D) → length xs ≡ n → take n xs ≡ some xs
  unfolding take
  take-all zero [] h = refl
  take-all zero (x ∷ xs) h = absurd (omega arith)
  take-all (suc n) [] h = absurd (omega arith)
  take-all (suc n) (x ∷ xs) h = rw (take-all n xs (omega arith)) refl

  pub take-some :
      (n : ℕ) (xs : List D)
      → n ≤ length xs
      → (ys : List D) × (take n xs ≡ some ys) × (length ys ≡ n)
  unfolding take
  take-some zero xs h = ([], refl, refl)
  take-some (suc n) [] h = absurd (omega arith)
  take-some (suc n) (x ∷ xs) h =
      let (ys, e, l) = take-some n xs (omega arith) in (x ∷ ys, rw e refl, omega (arith, l))

module _ {D : Type 0} (doubles : Doubles D) where
  distance2-some :
      (d : D) (xs ys : List D)
      → length xs ≡ length ys
      → (e : D) × (distance2 doubles d xs ys ≡ some e)
  distance2-some d [] ys h = (d, refl)
  distance2-some d (x ∷ xs) [] h = absurd (omega arith)
  distance2-some d (x ∷ xs) (y ∷ ys) h =
      let tmp = doubles.sub x y in
      distance2-some (doubles.add d (doubles.mul tmp tmp)) xs ys (omega arith)

  pub gaussian-IsDefined : (a : D) → IsDefined (gaussian doubles a)
  gaussian-IsDefined a xs ys h =
      let (d2, e) = distance2-some doubles.zero xs ys h in
      (doubles.exp (doubles.mul (doubles.neg a) d2), rw e refl)

  pub triangle-IsDefined : (a : D) → IsDefined (triangle doubles a)
  triangle-IsDefined a xs ys h =
      let (d2, e) = distance2-some doubles.zero xs ys h in
      (positive doubles a (doubles.sqrt d2), rw e refl)

  pub match_all-Matched :
      (f : List D → Option D) (dim : ℕ)
      → ((row : List D) → length row ≡ dim → (x : D) × (f row ≡ some x))
      → (m : D) (weights content : List D) → length weights ≡ length content * dim
      → (d : D) × (out : List D) × (match_all doubles f dim m weights content ≡ some (d, out))
        × (length out ≡ length content)
        × Matched f dim weights out
  match_all-Matched f dim total m weights [] h = (m, [], refl, refl, tt)
  match_all-Matched f dim total m weights (res ∷ content) h =
      let (row, t, lr) = take-some dim weights (omega (arith, h)) in
      let (rest, a, la) = advance-length dim weights (omega (arith, h)) in
      let (x, e) = total row lr in
      let diff = doubles.fabs (doubles.sub x res) in
      let (d, out, q, l, k) =
        match_all-Matched f dim total (if doubles.less m diff then diff else m) rest content
          (omega (arith, h, la)) in
      (d, x ∷ out, rw t (rw a (rw e (rw q refl))), omega (arith, l), (row, rest, t, a, e, k))

  module _ (kernel : Kernel D) (defined : IsDefined kernel) where
    -- The members know an input of a content: a row of weights is given to the function of the input.
    pub record Knows (c : Content) (xs : List D) (s : Members D) : Type 0 where
      pub known :
          (w : List D)
          → row_match doubles kernel (record s { w = w })
            ≡ some (row_of kernel c xs, content_size c)
      pub total :
          (row : List D) → length row ≡ content_size c → (x : D) × (row_of kernel c xs row ≡ some x)

    one-total :
        (i : D) (row : List D)
        → length row ≡ 1
        → (x : D) × ((elim row [ w ∷ [] ↦ some (kernel.one w i) | _ ↦ none ]) ≡ some x)
    one-total i [] h = absurd (omega arith)
    one-total i (w ∷ []) h = (kernel.one w i, refl)
    one-total i (w ∷ v ∷ row) h = absurd (omega arith)

    pub read_input-Knows :
        (c : Content) (xs : List D) (s : Members D)
        → IsContent c
        → length xs ≡ content_size c
        → (s' : Members D) × (read_data doubles 0
              (record { type = DataType.plain c; content = xs })
              s
            ≡ some s')
          × Knows c xs s'
    unfolding read_data read_input row_match
    read_input-Knows Content.scalar (x ∷ []) s v h = (
      record s { input_type = some (DataType.plain Content.scalar); i1 = x },
      refl,
      record { known = λ w. refl; total = λ row l. one-total x row l },
    )
    read_input-Knows Content.pos1 (x ∷ []) s v h = (
      record s { input_type = some (DataType.plain Content.pos1); i1 = x },
      refl,
      record { known = λ w. refl; total = λ row l. one-total x row l },
    )
    read_input-Knows Content.pos2 (x ∷ y ∷ []) s v h = (
      record s { input_type = some (DataType.plain Content.pos2); i2 = x ∷ y ∷ [] },
      refl,
      record { known = λ w. refl; total = λ row l. defined row (x ∷ y ∷ []) l },
    )
    read_input-Knows Content.scalar [] s v h = absurd (omega arith)
    read_input-Knows Content.scalar (x ∷ y ∷ xs) s v h = absurd (omega arith)
    read_input-Knows Content.pos1 [] s v h = absurd (omega arith)
    read_input-Knows Content.pos1 (x ∷ y ∷ xs) s v h = absurd (omega arith)
    read_input-Knows Content.pos2 [] s v h = absurd (omega arith)
    read_input-Knows Content.pos2 (x ∷ []) s v h = absurd (omega arith)
    read_input-Knows Content.pos2 (x ∷ y ∷ z ∷ xs) s v h = absurd (omega arith)
    read_input-Knows (Content.array n) xs s v h = (
      record s { input_type = some (DataType.plain (Content.array n)); in_n = xs },
      ground arith,
      record { known = λ w. ground arith; total = λ row l. defined row xs (l ∙ sym h) },
    )
