-- ===== src/Data/Variable/Cache.antt =====
-- cxsom/src/cxsomVariable.hpp: the cache of a variable, a `std::map` of dates to shared instances, in the order
-- of the dates.
use cxsom.Prelude.{ℕ, ◌-◌, ◌<◌, if◌then◌else◌, ltb, ◌==◌, ==_iff, List, [], ◌∷◌, length, Eq, All}

instance abbrev pub date_Eq : Eq ℕ
date_Eq = record { beq = ◌==◌; beq_iff = ==_iff }

-- Dates, with the addresses of their instances.
abbrev pub Cached : Type 0
Cached = List (ℕ × ℕ)

-- The dates increase.
unfoldable pub IsSorted : Cached → Type 0
IsSorted [] = Unit
IsSorted ((k, r) ∷ rest) = All (λ e. k < e.0) rest × IsSorted rest

-- The loop of `remove_oldest`: the dates to remove, `nb` of them at most. An entry whose instance is
-- used nowhere else has a `use_count()` of 1.
unfoldable pub to_remove : (ℕ → ℕ) → ℕ → Cached → List ℕ
to_remove use_count nb [] = []
to_remove use_count nb ((k, r) ∷ rest) =
    let left = if use_count r == 1 then nb - 1 else nb in
    let more = to_remove use_count left rest in
    if nb == 0 then [] else if use_count r == 1 then k ∷ more else more

-- `cached_instances.erase`
unfoldable pub erase_date : ℕ → Cached → Cached
erase_date at [] = []
erase_date at ((k, r) ∷ rest) =
    let erased = erase_date at rest in if k == at then rest else (k, r) ∷ erased

unfoldable pub erase_dates : List ℕ → Cached → Cached
erase_dates [] c = c
erase_dates (at ∷ more) c = erase_dates more (erase_date at c)

-- `remove_oldest`: how many instances are removed, and the cache that is left.
unfoldable pub remove_oldest : (ℕ → ℕ) → ℕ → Cached → ℕ × Cached
remove_oldest use_count nb c =
    let dates = to_remove use_count nb c in (length dates, erase_dates dates c)

-- `try_emplace`
unfoldable pub emplace : ℕ → ℕ → Cached → Cached
emplace at r [] = (at, r) ∷ []
emplace at r ((k, s) ∷ rest) =
    let more = emplace at r rest in
    if k == at then (k, s) ∷ rest else if ltb at k then (at, r) ∷ (k, s) ∷ rest else (k, s) ∷ more
