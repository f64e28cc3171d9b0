-- ===== src/Data/Variable/Life.antt =====
-- cxsom/src/cxsomVariable.hpp: the life of a variable, with the instances that are held outside its cache.
-- Each call runs alone, under the mutex of the variable.
use cxsom.Prelude.{ℕ, suc, ◌≡◌, inr, List, [], ◌∷◌, ◌++◌, count, ◌==◌, Option}
use cxsom.Data.{Availability}
use cxsom.Data.Instance.{Cell}
use cxsom.Data.File.{State}
use cxsom.Data.Variable.{Variable, instance_at, sync, declare_ready, history_length, clean_up}

-- `held` are the dates and the addresses of the shared pointers outside the cache.
pub record Life (T D : Type 0) : Type 0 where
  pub var : Variable T D
  pub held : List (ℕ × ℕ)

-- `use_count()` of an instance of the cache: the cache's own pointer, and those held outside.
abbrev pub use_count : {T D : Type 0} → Life T D → ℕ → ℕ
use_count l r = suc (count (λ h. h.1 == r) l.held)

-- The variable after its constructor.
abbrev pub born : {T D : Type 0} → State T D → (ℕ → Cell D) → Life T D
born f cells = record {
  var = record { file = f; cached = []; cells = cells; fresh = 0 };
  held = [];
}

pub data Step {T D : Type 0} (zeros : D) : Life T D → Life T D → Type 0 where
  gets :
      (l : Life T D) (at r : ℕ) (x : Variable T D)
      → instance_at zeros (use_count l) at l.var ≡ inr (r, x)
      → Step zeros l (record { var = x; held = (at, r) ∷ l.held })
  copies :
      (l : Life T D) (before : List (ℕ × ℕ)) (h : ℕ × ℕ) (rest : List (ℕ × ℕ))
      → l.held ≡ before ++ h ∷ rest
      → Step zeros l (record l { held = h ∷ l.held })
  drops :
      (l : Life T D) (before : List (ℕ × ℕ)) (h : ℕ × ℕ) (rest : List (ℕ × ℕ))
      → l.held ≡ before ++ h ∷ rest
      → Step zeros l (record l { held = before ++ rest })
  cleans : (l : Life T D) → Step zeros l (record l { var = clean_up (use_count l) l.var })
  syncs :
      (l : Life T D) (at : ℕ) (a : Availability) (d : Option D) (x : Variable T D)
      → sync at l.var ≡ inr (a, d, x)
      → Step zeros l (record l { var = x })
  declares :
      (l : Life T D) (at : ℕ) (d : D) (x : Variable T D)
      → declare_ready zeros at d l.var ≡ inr x
      → Step zeros l (record l { var = x })
  asks :
      (l : Life T D) (n : ℕ) (x : Variable T D)
      → history_length l.var ≡ inr (n, x)
      → Step zeros l (record l { var = x })
  sets :
      (l : Life T D) (cells : ℕ → Cell D)
      → Step zeros l (record l { var = record l.var { cells = cells } })

pub data Reach {T D : Type 0} (zeros : D) (l : Life T D) : Life T D → Type 0 where
  here : Reach zeros l l
  next : {m n : Life T D} → Reach zeros l m → Step zeros m n → Reach zeros l n
