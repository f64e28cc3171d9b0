-- ===== src/Data/Variable/Single.antt =====
-- cxsom/src/cxsomVariable.hpp: the cache of a variable in its life. A date that is held has one instance.
use cxsom.Prelude.{
  ℕ, suc, ◌<◌, ◌≤◌, ◌≡◌, ◌↔◌, refl, sym, ap, subst, ◌∙◌, inl, inr, ◌==◌, if◌then◌else◌, if_split,
  Option, some, List, [], ◌∷◌, length, get_elem?, count, All, All-get_elem?, All-middle, All-map,
  All-map2, find, arith, add64, sub64, ltb,
}
use cxsom.Data.{Availability}
use cxsom.Data.Instance.{Cell}
use cxsom.Data.File.{State}
use cxsom.Data.Variable.Cache.{IsSorted, date_Eq}
use cxsom.Data.Variable.Keeping.{
  find-remove_oldest, remove_oldest-IsSorted, find-emplace, emplace-IsSorted,
}
use cxsom.Data.Variable.Bound.{instance_at-parts, find-make_room-none}
use cxsom.Data.Variable.{
  Variable, bound, make_room, instance_at, sync, declare_ready, history_length, clean_up,
}
use cxsom.Data.Variable.Life.{
  Life, use_count, born, Step, Reach, gets, copies, drops, cleans, syncs, declares, asks, sets,
  here, next,
}

-- An instance that is held is used outside the cache.
used :
    (gs hs : List (ℕ × ℕ))
    → ((r : ℕ) → count (λ g. g.1 == r) hs ≤ count (λ g. g.1 == r) gs)
    → All (λ h. 1 < suc (count (λ g. g.1 == h.1) gs)) hs
used gs [] f = tt
used gs (h ∷ hs) f = let g = f h.1 in (ground (arith, g), used gs hs (λ r. ground (arith, f r)))

module _ {T D : Type 0} where
  make_room-IsSorted :
      (uses : ℕ → ℕ) (x : Variable T D) → IsSorted x.cached → IsSorted (make_room uses x)
  unfolding make_room
  make_room-IsSorted uses x h =
      let next_size = add64 (length x.cached) 1 in
      if_split IsSorted (ltb (bound x) next_size)
        (λ _. remove_oldest-IsSorted uses (sub64 next_size (bound x)) x.cached h) (λ _. h)

  -- The room that is made takes nothing but unused instances.
  find-make_room :
      (uses : ℕ → ℕ) (x : Variable T D) (at r : ℕ)
      → IsSorted x.cached
      → find at (make_room uses x) ≡ some r
      → find at x.cached ≡ some r
  unfolding make_room
  find-make_room uses x at r h =
      let next_size = add64 (length x.cached) 1 in
      ground (arith, find-remove_oldest uses (sub64 next_size (bound x)) at x.cached h)

  make_room-used :
      (uses : ℕ → ℕ) (x : Variable T D) (at r : ℕ)
      → IsSorted x.cached
      → 1 < uses r
      → find at x.cached ≡ some r
      → find at (make_room uses x) ≡ some r
  unfolding make_room
  make_room-used uses x at r h u =
      let next_size = add64 (length x.cached) 1 in
      ground (arith, find-remove_oldest uses (sub64 next_size (bound x)) at x.cached h)

  -- The cache is in order, what is held is in the cache, and no two dates share an address.
  record Inv (l : Life T D) : Type 0 where
    sorted : IsSorted l.var.cached
    kept : All (λ h. find h.0 l.var.cached ≡ some h.1) l.held
    below : (at r : ℕ) → find at l.var.cached ≡ some r → r < l.var.fresh
    apart : (a b r : ℕ) → find a l.var.cached ≡ some r → find b l.var.cached ≡ some r → a ≡ b

  Inv-room :
      (l : Life T D) → Inv l → All (λ h. find h.0 (make_room (use_count l) l.var) ≡ some h.1) l.held
  Inv-room l v =
      All-map2 (λ h f u. make_room-used (use_count l) l.var h.0 h.1 v.sorted u f) l.held v.kept
        (used l.held l.held (λ r. omega arith))

  Inv-gets :
      (zeros : D) (l : Life T D) (at r : ℕ) (x : Variable T D)
      → Inv l
      → instance_at zeros (use_count l) at l.var ≡ inr (r, x)
      → Inv (record { var = x; held = (at, r) ∷ l.held })
  Inv-gets zeros l at r x v e = elim (instance_at-parts zeros (use_count l) at r l.var x e) [
    | inl (f, same) ↦
        rw same (record { sorted = v.sorted; kept = (f, v.kept); below = v.below; apart = v.apart })
    | inr (f, n, q, c) ↦
        let room = make_room (use_count l) l.var in
        let none' = find-make_room-none (use_count l) l.var at v.sorted f in
        let found : (j : ℕ)
            → find j x.cached ≡ (if at == j then some l.var.fresh else find j room) =
          λ j. ap (find j) c ∙ find-emplace at l.var.fresh j room none' in
        record {
          sorted = subst IsSorted (sym c) (
              emplace-IsSorted at l.var.fresh room
                (make_room-IsSorted (use_count l) l.var v.sorted));
          kept = (
            ground (arith, found at),
            All-map (λ h k. ground (arith, found h.0)) l.held (Inv-room l v),
          );
          below = λ a s k.
              ground (arith, found a, find-make_room (use_count l) l.var a s v.sorted, v.below a s);
          apart = λ a b s k m. ground (
            arith,
            found a,
            found b,
            find-make_room (use_count l) l.var a s v.sorted,
            find-make_room (use_count l) l.var b s v.sorted,
            v.below a s,
            v.below b s,
            v.apart a b s,
          );
        }
  ]

  -- A variable with the cache of another.
  Inv-same :
      (l : Life T D) (x : Variable T D)
      → Inv l
      → x.cached ≡ l.var.cached
      → x.fresh ≡ l.var.fresh
      → Inv (record l { var = x })
  Inv-same l x v c f = record {
    sorted = subst IsSorted (sym c) v.sorted;
    kept = rw c v.kept;
    below = rw (c, f) v.below;
    apart = rw c v.apart;
  }

  sync-same :
      (at : ℕ) (x y : Variable T D) {a : Availability} {d : Option D}
      → sync at x ≡ inr (a, d, y)
      → (y.cached ≡ x.cached) × (y.fresh ≡ x.fresh)
  unfolding sync
  sync-same at x y h = ground arith

  declare_ready-same :
      (zeros : D) (at : ℕ) (d : D) (x y : Variable T D)
      → declare_ready zeros at d x ≡ inr y
      → (y.cached ≡ x.cached) × (y.fresh ≡ x.fresh)
  unfolding declare_ready
  declare_ready-same zeros at d x y h = ground arith

  history_length-same :
      (n : ℕ) (x y : Variable T D)
      → history_length x ≡ inr (n, y)
      → (y.cached ≡ x.cached) × (y.fresh ≡ x.fresh)
  unfolding history_length
  history_length-same n x y h = ground arith

  Inv-cleans : (l : Life T D) → Inv l → Inv (record l { var = clean_up (use_count l) l.var })
  unfolding clean_up
  Inv-cleans l v =
      let uses = use_count l in
      let n = length l.var.cached in
      let c = l.var.cached in
      record {
        sorted = remove_oldest-IsSorted uses n l.var.cached v.sorted;
        kept =
            All-map2 (λ h f u. ground (arith, find-remove_oldest uses n h.0 c v.sorted)) l.held
              v.kept (used l.held l.held (λ r. omega arith));
        below = λ a r k. ground (arith, find-remove_oldest uses n a c v.sorted, v.below a r);
        apart = λ a b r k m. ground (
          arith,
          find-remove_oldest uses n a c v.sorted,
          find-remove_oldest uses n b c v.sorted,
          v.apart a b r,
        );
      }

  Step-Inv : (zeros : D) {l m : Life T D} → Step zeros l m → Inv l → Inv m
  Step-Inv zeros (gets l at r x e) v = Inv-gets zeros l at r x v e
  Step-Inv zeros (copies l before h rest e) v =
      let (ks, k) =
        All-middle (λ g. find g.0 l.var.cached ≡ some g.1) before h rest (subst (All _) e v.kept) in
      record { sorted = v.sorted; kept = (k, v.kept); below = v.below; apart = v.apart }
  Step-Inv zeros (drops l before h rest e) v =
      let (ks, k) =
        All-middle (λ g. find g.0 l.var.cached ≡ some g.1) before h rest (subst (All _) e v.kept) in
      record { sorted = v.sorted; kept = ks; below = v.below; apart = v.apart }
  Step-Inv zeros (cleans l) v = Inv-cleans l v
  Step-Inv zeros (syncs l at a d x e) v = let (c, f) = sync-same at l.var x e in Inv-same l x v c f
  Step-Inv zeros (declares l at d x e) v =
      let (c, f) = declare_ready-same zeros at d l.var x e in Inv-same l x v c f
  Step-Inv zeros (asks l n x e) v =
      let (c, f) = history_length-same n l.var x e in Inv-same l x v c f
  Step-Inv zeros (sets l cells) v = Inv-same l (record l.var { cells = cells }) v refl refl

  Reach-Inv :
      (zeros : D) (f : State T D) (cells : ℕ → Cell D) {l : Life T D}
      → Reach zeros (born f cells) l
      → Inv l
  unfolding IsSorted find
  Reach-Inv zeros f cells here = record {
    sorted = tt;
    kept = tt;
    below = λ a r k. ground arith;
    apart = λ a b r k m. ground arith;
  }
  Reach-Inv zeros f cells (next r st) = Step-Inv zeros st (Reach-Inv zeros f cells r)

  -- At every moment of the life of a variable, two instances of it that are held are the same one
  -- in memory exactly if they have the same date.
  pub held-single :
      (zeros : D) (f : State T D) (cells : ℕ → Cell D) (l : Life T D) (i j a b r s : ℕ)
      → Reach zeros (born f cells) l
      → get_elem? l.held i ≡ some (a, r)
      → get_elem? l.held j ≡ some (b, s)
      → (a ≡ b) ↔ (r ≡ s)
  held-single zeros f cells l i j a b r s h p q =
      let v = Reach-Inv zeros f cells h in
      let P : ℕ × ℕ → Type 0 = λ g. find g.0 l.var.cached ≡ some g.1 in
      let k = All-get_elem? P l.held i (a, r) v.kept p in
      let m = All-get_elem? P l.held j (b, s) v.kept q in
      (λ e. ground (arith, k, m, e), λ e. v.apart a b r k (rw e m))
