-- ===== src/Data/Center/Tests.antt =====
-- A centre with a variable that is checked, and the theorems on it.
use cxsom.Prelude.{ℕ, ◌≡◌, refl, some, none, inr, inl, store, find, Option, ◌⊎◌}
use cxsom.Symbol.{variable_Eq}
use cxsom.Symbol
use cxsom.Data.File.{realize, FileError}
use cxsom.Data.Variable.Cache.{date_Eq}
use cxsom.Data.Center.{Center, CenterError, construct, check, get_var, type_of, clear}
use cxsom.Data.Center.Lasting.{
  made, Reach, checks, clears, here, next, type_of-type_of, made-IsKnown, Reach-Keeps,
}
use cxsom.Data.Center.Checking.{thrown, check-refusal}

abbrev zeros : Option ℕ → ℕ
zeros t = 0

-- The types are numbers.
abbrev weight : Symbol.Variable
weight = record { timeline = "main"; name = "weight" }

abbrev empty : Center ℕ ℕ
empty = made zeros (λ v. none)

abbrev result : CenterError ⊎ Center ℕ ℕ → Center ℕ ℕ
result (inl x) = empty
result (inr c) = c

abbrev checked : Center ℕ ℕ
checked = result (check zeros weight 7 (some 2) (some 3) empty)

Reach-checked : Reach zeros empty checked
unfolding check construct realize find store
Reach-checked = next here (checks weight 7 (some 2) (some 3) empty checked refl)

-- The variable is checked again with another type.
check-refusal_example :
    thrown (check zeros weight 8 none none checked)
    ≡ some (CenterError.of_file FileError.type_mismatch)
unfolding find check construct realize store
check-refusal_example =
    check-refusal zeros weight 8 none none checked
      (Reach-Keeps zeros Reach-checked (made-IsKnown zeros (λ v. none))).0

-- After `clear`, the type is read in the file again.
type_of-type_of_example :
    (a : Center ℕ ℕ) × (type_of zeros weight (clear zeros checked) ≡ inr (some 7, a))
unfolding type_of get_var check construct realize find store
type_of-type_of_example =
    type_of-type_of zeros (λ v. none) checked checked (clear zeros checked) weight 7 Reach-checked
      refl (next here (clears checked))
