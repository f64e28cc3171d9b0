-- ===== src/Data/Variable/Keeping.antt =====
-- cxsom/src/cxsomVariable.hpp: what `remove_oldest` and `try_emplace` leave in the cache.
use cxsom.Prelude.{
  ℕ, Bool, ◌-◌, ◌+◌, ◌<◌, ◌≤◌, min, ◌≡◌, refl, if◌then◌else◌, ◌&&◌, ltb, ltb→lt, if_split, suc,
  ◌==◌, List, [], ◌∷◌, length, find, All, none, some, arith, count, All-map,
}
use cxsom.Data.Variable.Cache.{
  Cached, IsSorted, to_remove, erase_date, erase_dates, remove_oldest, emplace, date_Eq,
}

-- The entries left by one pass, of which the first `nb` unused ones are dropped.
unfoldable swept : (ℕ → ℕ) → ℕ → Cached → Cached
swept use_count nb [] = []
swept use_count nb ((k, r) ∷ rest) =
    let left = if use_count r == 1 then nb - 1 else nb in
    let more = swept use_count left rest in
    if use_count r == 1 && ltb 0 nb then more else (k, r) ∷ more

-- How many entries are unused, and how many of those are before a date.
abbrev pub is_unused : (ℕ → ℕ) → ℕ × ℕ → Bool
is_unused use_count e = use_count e.1 == 1

abbrev pub unused : (ℕ → ℕ) → Cached → ℕ
unused use_count c = count (is_unused use_count) c

abbrev pub unused_before : (ℕ → ℕ) → ℕ → Cached → ℕ
unused_before use_count at c = count (λ e. ltb e.0 at && use_count e.1 == 1) c

swept-zero : (use_count : ℕ → ℕ) (c : Cached) → swept use_count 0 c ≡ c
unfolding swept
swept-zero use_count [] = refl
swept-zero use_count ((k, r) ∷ rest) = ground (arith, swept-zero use_count rest)

to_remove-above :
    (use_count : ℕ → ℕ) (nb k : ℕ) (c : Cached)
    → All (λ e. k < e.0) c
    → All (λ at. k < at) (to_remove use_count nb c)
unfolding to_remove
to_remove-above use_count nb k [] h = tt
to_remove-above use_count nb k ((j, r) ∷ rest) h =
    ground
      (arith, h, to_remove-above use_count (if use_count r == 1 then nb - 1 else nb) k rest h.1)

erase_dates-above :
    (dates : List ℕ) (k r : ℕ) (c : Cached)
    → All (λ at. k < at) dates
    → erase_dates dates ((k, r) ∷ c) ≡ (k, r) ∷ erase_dates dates c
unfolding erase_dates erase_date
erase_dates-above [] k r c h = refl
erase_dates-above (at ∷ more) k r c h =
    ground (arith, h, erase_dates-above more k r (erase_date at c) h.1)

remove_oldest-swept :
    (use_count : ℕ → ℕ) (nb : ℕ) (c : Cached)
    → IsSorted c
    → (remove_oldest use_count nb c).1 ≡ swept use_count nb c
unfolding remove_oldest to_remove erase_dates erase_date swept IsSorted
remove_oldest-swept use_count nb [] h = refl
remove_oldest-swept use_count nb ((k, r) ∷ rest) h =
    let left = if use_count r == 1 then nb - 1 else nb in
    ground (
      arith,
      remove_oldest-swept use_count left rest h.1,
      swept-zero use_count rest,
      erase_dates-above (to_remove use_count left rest) k r rest
          (to_remove-above use_count left k rest h.0),
    )

find-above : (at k : ℕ) (c : Cached) → All (λ e. k < e.0) c → at ≤ k → find at c ≡ none
unfolding find
find-above at k [] h l = refl
find-above at k ((j, r) ∷ rest) h l = ground (arith, h, find-above at k rest h.1 l)

unused_before-above :
    (use_count : ℕ → ℕ) (at k : ℕ) (c : Cached)
    → All (λ e. k < e.0) c
    → at ≤ k
    → unused_before use_count at c ≡ 0
unused_before-above use_count at k [] h l = refl
unused_before-above use_count at k ((j, r) ∷ rest) h l =
    ground (arith, h, unused_before-above use_count at k rest h.1 l)

find-swept :
    (use_count : ℕ → ℕ) (nb at : ℕ) (c : Cached)
    → IsSorted c
    → find at (swept use_count nb c) ≡ (elim (find at c) [
      | none ↦ none
      | some r ↦ if use_count r == 1 && ltb (unused_before use_count at c) nb then none else some r
    ])
unfolding swept IsSorted find
find-swept use_count nb at [] h = refl
find-swept use_count nb at ((k, r) ∷ rest) h =
    let left = if use_count r == 1 then nb - 1 else nb in
    ground (
      arith,
      find-swept use_count left at rest h.1,
      find-above at k rest h.0,
      unused_before-above use_count at k rest h.0,
    )

-- Which entries `remove_oldest` leaves: all but those that are unused and have fewer than `nb`
-- unused entries before them.
pub find-remove_oldest :
    (use_count : ℕ → ℕ) (nb at : ℕ) (c : Cached)
    → IsSorted c
    → find at (remove_oldest use_count nb c).1 ≡ (elim (find at c) [
      | none ↦ none
      | some r ↦ if use_count r == 1 && ltb (unused_before use_count at c) nb then none else some r
    ])
find-remove_oldest use_count nb at c h =
    rw (remove_oldest-swept use_count nb c h) (find-swept use_count nb at c h)

length-swept :
    (use_count : ℕ → ℕ) (nb : ℕ) (c : Cached)
    → length (swept use_count nb c) + min nb (unused use_count c) ≡ length c
unfolding swept
length-swept use_count nb [] = ground arith
length-swept use_count nb ((k, r) ∷ rest) =
    let left = if use_count r == 1 then nb - 1 else nb in
    ground (arith, length-swept use_count left rest)

pub removed-remove_oldest :
    (use_count : ℕ → ℕ) (nb : ℕ) (c : Cached)
    → (remove_oldest use_count nb c).0 ≡ min nb (unused use_count c)
unfolding remove_oldest to_remove
removed-remove_oldest use_count nb [] = ground arith
removed-remove_oldest use_count nb ((k, r) ∷ rest) =
    let left = if use_count r == 1 then nb - 1 else nb in
    ground (arith, removed-remove_oldest use_count left rest)

pub length-remove_oldest :
    (use_count : ℕ → ℕ) (nb : ℕ) (c : Cached)
    → IsSorted c
    → length (remove_oldest use_count nb c).1 + min nb (unused use_count c) ≡ length c
length-remove_oldest use_count nb c h =
    rw (remove_oldest-swept use_count nb c h) (length-swept use_count nb c)

swept-above :
    (use_count : ℕ → ℕ) (nb k : ℕ) (c : Cached)
    → All (λ e. k < e.0) c
    → All (λ e. k < e.0) (swept use_count nb c)
unfolding swept
swept-above use_count nb k [] h = tt
swept-above use_count nb k ((j, r) ∷ rest) h =
    let left = if use_count r == 1 then nb - 1 else nb in
    ground (arith, h, swept-above use_count left k rest h.1)

swept-IsSorted :
    (use_count : ℕ → ℕ) (nb : ℕ) (c : Cached) → IsSorted c → IsSorted (swept use_count nb c)
unfolding swept IsSorted
swept-IsSorted use_count nb [] h = tt
swept-IsSorted use_count nb ((k, r) ∷ rest) h =
    let left = if use_count r == 1 then nb - 1 else nb in
    if_split IsSorted (use_count r == 1 && ltb 0 nb) (λ _. swept-IsSorted use_count left rest h.1)
      (λ _. (swept-above use_count left k rest h.0, swept-IsSorted use_count left rest h.1))

pub remove_oldest-IsSorted :
    (use_count : ℕ → ℕ) (nb : ℕ) (c : Cached)
    → IsSorted c
    → IsSorted (remove_oldest use_count nb c).1
remove_oldest-IsSorted use_count nb c h =
    rw (remove_oldest-swept use_count nb c h) (swept-IsSorted use_count nb c h)

pub find-emplace :
    (at r j : ℕ) (c : Cached)
    → find at c ≡ none
    → find j (emplace at r c) ≡ (if at == j then some r else find j c)
unfolding emplace find
find-emplace at r j [] h = refl
find-emplace at r j ((k, s) ∷ rest) h = ground (arith, find-emplace at r j rest)

pub length-emplace :
    (at r : ℕ) (c : Cached) → find at c ≡ none → length (emplace at r c) ≡ suc (length c)
unfolding emplace find
length-emplace at r [] h = refl
length-emplace at r ((k, s) ∷ rest) h = ground (arith, length-emplace at r rest)

emplace-above :
    (at r k : ℕ) (c : Cached) → k < at → All (λ e. k < e.0) c → All (λ e. k < e.0) (emplace at r c)
unfolding emplace
emplace-above at r k [] l h = (l, tt)
emplace-above at r k ((j, s) ∷ rest) l h =
    if_split (All (λ e. k < e.0)) (j == at) (λ _. h)
      (λ _.
        if_split (All (λ e. k < e.0)) (ltb at j) (λ _. (l, h))
          (λ _. (h.0, emplace-above at r k rest l h.1)))

pub emplace-IsSorted : (at r : ℕ) (c : Cached) → IsSorted c → IsSorted (emplace at r c)
unfolding emplace IsSorted
emplace-IsSorted at r [] h = (tt, tt)
emplace-IsSorted at r ((k, s) ∷ rest) h =
    if_split IsSorted (k == at) (λ _. h)
      (λ n.
        if_split IsSorted (ltb at k)
          (λ b. ((ltb→lt at k b, All-map (λ e q. omega (arith, ltb→lt at k b, q)) rest h.0), h))
          (λ m. (emplace-above at r k rest (ground arith) h.0, emplace-IsSorted at r rest h.1)))
