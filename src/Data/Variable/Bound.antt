-- ===== src/Data/Variable/Bound.antt =====
-- cxsom/src/cxsomVariable.hpp: how many instances the cache of a variable keeps.
use cxsom.Prelude.{
  ℕ, suc, ◌+◌, ◌<◌, ◌≤◌, max, ◌≡◌, refl, ◌⊎◌, inl, inr, not, none, some, Option-cases, [], ◌∷◌,
  length, count, find, arith, word, add64, sub64, add64-eq, sub64-eq,
}
use cxsom.Data.Variable.Cache.{Cached, IsSorted, emplace, date_Eq}
use cxsom.Data.Variable.Keeping.{
  length-remove_oldest, length-emplace, find-remove_oldest, unused, is_unused,
}
use cxsom.Data.Variable.{Variable, bound, make_room, make_instance, instance_at}

-- The entries whose instance is used outside the cache.
abbrev pub in_use : (ℕ → ℕ) → Cached → ℕ
in_use uses c = count (λ e. not (is_unused uses e)) c

unused-in_use : (uses : ℕ → ℕ) (c : Cached) → unused uses c + in_use uses c ≡ length c
unused-in_use uses [] = refl
unused-in_use uses (e ∷ rest) = ground (arith, unused-in_use uses rest)

module _ {T D : Type 0} where
  length-make_room :
      (uses : ℕ → ℕ) (x : Variable T D)
      → IsSorted x.cached
      → suc (length x.cached) < word
      → suc (length (make_room uses x)) ≤ max (bound x) (suc (in_use uses x.cached))
  unfolding make_room
  length-make_room uses x h w =
      let next_size = add64 (length x.cached) 1 in
      ground (
        arith,
        unused-in_use uses x.cached,
        length-remove_oldest uses (sub64 next_size (bound x)) x.cached h,
        add64-eq (length x.cached) 1,
        sub64-eq next_size (bound x),
      )

  -- An instance is that of the cache, or a new one that is put there.
  pub instance_at-parts :
      (zeros : D) (uses : ℕ → ℕ) (at r : ℕ) (x y : Variable T D)
      → instance_at zeros uses at x ≡ inr (r, y)
      → (find at x.cached ≡ some r) × (y ≡ x)
        ⊎ ((find at x.cached ≡ none)
            × (y.fresh ≡ suc x.fresh)
            × (r ≡ x.fresh)
            × (y.cached ≡ emplace at x.fresh (make_room uses x)))
  unfolding instance_at make_instance
  instance_at-parts zeros uses at r x y h = elim (Option-cases (find at x.cached)) [
    | inl e ↦ ground arith
    | inr (s, e) ↦ ground arith
  ]

  pub find-make_room-none :
      (uses : ℕ → ℕ) (x : Variable T D) (at : ℕ)
      → IsSorted x.cached
      → find at x.cached ≡ none
      → find at (make_room uses x) ≡ none
  unfolding make_room
  find-make_room-none uses x at h n =
      let next_size = add64 (length x.cached) 1 in
      ground (arith, find-remove_oldest uses (sub64 next_size (bound x)) at x.cached h)

  -- After a call of `instance`, the cache has not grown if the date was in it; else it has at most
  -- the size of the cache (and at least 1), or the number of the instances that are used elsewhere
  -- and the new one if these are more. The cache is in order and has room for a size in 64 bits.
  pub length-instance_at :
      (zeros : D) (uses : ℕ → ℕ) (at r : ℕ) (x y : Variable T D)
      → IsSorted x.cached
      → suc (length x.cached) < word
      → instance_at zeros uses at x ≡ inr (r, y)
      → length y.cached ≤ (elim (find at x.cached) [
        | some s ↦ length x.cached
        | none ↦ max (bound x) (suc (in_use uses x.cached))
      ])
  length-instance_at zeros uses at r x y h w e = elim (instance_at-parts zeros uses at r x y e) [
    | inl (f, same) ↦ ground arith
    | inr (f, _, _, c) ↦ ground (
      arith,
      length-emplace at x.fresh (make_room uses x) (find-make_room-none uses x at h f),
      length-make_room uses x h w,
    )
  ]
