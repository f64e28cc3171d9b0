-- ===== src/Job/Offsets.antt =====
-- cxsom/src/cxsomJobRule.hpp: what `min_offset` says of the dates at which a pattern can be realized.
use cxsom.Prelude.{
  ℕ, ◌≡◌, arith, refl, Bool, true, false, if◌then◌else◌, ltb, ◌&&◌, Option, none, some, List, [],
  ◌∷◌, String,
}
use cxsom.Symbol.{Variable}
use cxsom.Job.{
  absolute, relative, scaled, ℤ, pos, negsuc, lt_int, Time, ArgPattern, date_at, at, init_at, lower,
  lowest, args_at, FunctionPattern, function_pattern, update_pattern, function_at, update_at,
}

-- Whether a date and an offset give a date.
abbrev pub reaches : ℕ → ℤ → Bool
reaches ref_time (pos n) = true
reaches ref_time (negsuc n) = ltb n ref_time

abbrev pub is_some {ℓ} : {A : Type ℓ} → Option A → Bool
is_some none = false
is_some (some a) = true

-- An offset more in the minimum is a date more to be reached.
date_at-lower :
    (t : Time) (m : ℤ) (r : ℕ) → reaches r (lower m t) ≡ (reaches r m && is_some (date_at t r))
unfolding date_at
date_at-lower (absolute n) (pos k) r = refl
date_at-lower (absolute n) (negsuc k) r = ground arith
date_at-lower (scaled n) (pos k) r = refl
date_at-lower (scaled n) (negsuc k) r = ground arith
date_at-lower (relative (pos n)) (pos k) r = ground arith
date_at-lower (relative (pos n)) (negsuc k) r = ground arith
date_at-lower (relative (negsuc n)) (pos k) r = ground arith
date_at-lower (relative (negsuc n)) (negsuc k) r = ground arith

args_at-lowest :
    (args : List ArgPattern) (m : ℤ) (r : ℕ)
    → reaches r (lowest m args) ≡ (reaches r m && is_some (args_at args r))
unfolding args_at lowest at
args_at-lowest [] m r = ground arith
args_at-lowest (a ∷ rest) m r =
    ground (arith, args_at-lowest rest (lower m a.t) r, date_at-lower a.t m r)

reaches-min :
    (a b : ℤ) (r : ℕ) → reaches r (if lt_int a b then a else b) ≡ (reaches r b && reaches r a)
reaches-min (pos m) (pos n) r = ground arith
reaches-min (pos m) (negsuc n) r = ground arith
reaches-min (negsuc m) (pos n) r = ground arith
reaches-min (negsuc m) (negsuc n) r = ground arith

module _ {P : Type 0} where
  -- What the constructor of a pattern of function makes sure of.
  abbrev pub IsMade : FunctionPattern P → Type 0
  IsMade f = f.min_offset ≡ lowest (pos 0) f.args

  abbrev pub IsInitMade : Option (FunctionPattern P) → Type 0
  IsInitMade none = Unit
  IsInitMade (some f) = IsMade f

  pub function_pattern-IsMade :
      (op : String) (args : List ArgPattern) (params : P) → IsMade (function_pattern op args params)
  unfolding function_pattern
  function_pattern-IsMade op args params = refl

  function_at-min :
      (f : FunctionPattern P) (r : ℕ)
      → IsMade f
      → is_some (function_at f r) ≡ reaches r f.min_offset
  unfolding function_at
  function_at-min f r e = ground (arith, args_at-lowest f.args (pos 0) r)

  -- For a pattern of update whose functions have been made by their constructor, `at` gives an
  -- update at exactly the dates that go back by the minimal offset of the pattern without being
  -- negative, and throws at the others.
  pub update_at-min :
      (res : Variable) (init : Option (FunctionPattern P)) (usual : FunctionPattern P) (w r : ℕ)
      → IsInitMade init
      → IsMade usual
      → is_some (update_at (update_pattern res init usual w) r)
        ≡ reaches r (update_pattern res init usual w).min_offset
  unfolding update_at init_at update_pattern
  update_at-min res none usual w r i u = ground (arith, function_at-min usual r u)
  update_at-min res (some f) usual w r i u = ground (
    arith,
    function_at-min f r i,
    function_at-min usual r u,
    reaches-min usual.min_offset f.min_offset r,
  )
