-- ===== src/Job.antt =====
-- cxsom/src/cxsomSymbols.hpp and cxsom/src/cxsomJobRule.hpp: the patterns of instances and of updates, and
-- the updates that they stand for at a date.
pub mod Offsets
pub mod Center
pub mod Realizing
pub mod Opening
pub mod Queuing
pub mod Filling
pub mod Notify
pub mod Adding
pub mod Flush
pub mod Tests
use cxsom.Prelude.{
  ℕ, zero, suc, ◌>>=◌, ◌+◌, ◌-◌, ◌*◌, ◌%◌, String, Bool, true, false, if◌then◌else◌, ltb, leb,
  Option, none, some, List, [], ◌∷◌,
}
use cxsom.Symbol.{Variable}
use cxsom.Symbol

-- An `int`: `pos n` is n, `negsuc n` is -(n + 1).
pub data ℤ : Type 0 where
  pos : ℕ → ℤ
  negsuc : ℕ → ℤ

abbrev pub lt_int : ℤ → ℤ → Bool
lt_int (pos m) (pos n) = ltb m n
lt_int (pos m) (negsuc n) = false
lt_int (negsuc m) (pos n) = true
lt_int (negsuc m) (negsuc n) = ltb n m

-- 2^32: `unsigned int` wraps around there.
abbrev pub unsigned : ℕ
unsigned = 4294967296

-- `pattern::time`
pub data Time : Type 0 where
  absolute : ℕ → Time
  relative : ℤ → Time
  scaled : ℕ → Time

-- `symbol::pattern::ArgInstance`
pub record ArgPattern : Type 0 where
  pub variable : Variable
  pub t : Time

-- `relative::operator-`
abbrev pub opposite : ℤ → ℤ
opposite (pos zero) = pos 0
opposite (pos (suc n)) = negsuc n
opposite (negsuc n) = pos (suc n)

-- `ArgInstance::at`, for the three kinds of times; `none` is `error::negative_time`.
unfoldable pub date_at : Time → ℕ → Option ℕ
date_at (absolute n) ref_time = some n
date_at (relative (pos n)) ref_time = some ((ref_time + n) % unsigned)
date_at (relative (negsuc n)) ref_time =
    if ltb ref_time (suc n) then none else some (ref_time - suc n)
date_at (scaled factor) ref_time = some ((ref_time * factor) % unsigned)

unfoldable pub at : ArgPattern → ℕ → Option Symbol.Instance
at a ref_time = do date ← date_at a.t ref_time; some (record { variable = a.variable; at = date })

-- `jobs::Function` and `jobs::Update`. `P` is the type of the parameters of an operation.
pub record Function (P : Type 0) : Type 0 where
  pub op : String
  pub args : List Symbol.Instance
  pub params : P

pub record Update (P : Type 0) : Type 0 where
  pub res : Symbol.Instance
  pub init : Option (Function P)
  pub usual : Function P

-- `jobs::pattern::Function` and `jobs::pattern::Update`.
pub record FunctionPattern (P : Type 0) : Type 0 where
  pub min_offset : ℤ
  pub op : String
  pub args : List ArgPattern
  pub params : P

pub record UpdatePattern (P : Type 0) : Type 0 where
  pub min_offset : ℤ
  pub res : Variable
  pub init : Option (FunctionPattern P)
  pub usual : FunctionPattern P
  pub walltime : ℕ

-- One turn of the loop of the constructor.
abbrev pub lower : ℤ → Time → ℤ
lower min_offset (relative offset) = if lt_int offset min_offset then offset else min_offset
lower min_offset _ = min_offset

unfoldable pub lowest : ℤ → List ArgPattern → ℤ
lowest min_offset [] = min_offset
lowest min_offset (a ∷ rest) = lowest (lower min_offset a.t) rest

-- The loop of `at` over the arguments; the error of one is that of the call.
unfoldable pub args_at : List ArgPattern → ℕ → Option (List Symbol.Instance)
args_at [] ref_time = some []
args_at (a ∷ rest) ref_time = do i ← at a ref_time; is ← args_at rest ref_time; some (i ∷ is)

module _ {P : Type 0} where
  -- The constructors of the patterns.
  unfoldable pub function_pattern : String → List ArgPattern → P → FunctionPattern P
  function_pattern op args params = record {
    min_offset = lowest (pos 0) args;
    op = op;
    args = args;
    params = params;
  }

  unfoldable pub update_pattern :
      Variable → Option (FunctionPattern P) → FunctionPattern P → ℕ → UpdatePattern P
  update_pattern res init usual walltime = record {
    min_offset = elim init [
      | none ↦ usual.min_offset
      | some f ↦ if lt_int usual.min_offset f.min_offset then usual.min_offset else f.min_offset
    ];
    res = res;
    init = init;
    usual = usual;
    walltime = walltime;
  }

  -- `jobs::pattern::at`, of a function and of an update.
  unfoldable pub function_at : FunctionPattern P → ℕ → Option (Function P)
  function_at f ref_time = do
    args ← args_at f.args ref_time
    some (record { op = f.op; args = args; params = f.params })

  unfoldable pub init_at : Option (FunctionPattern P) → ℕ → Option (Option (Function P))
  init_at none ref_time = some none
  init_at (some f) ref_time = do init ← function_at f ref_time; some (some init)

  unfoldable pub update_at : UpdatePattern P → ℕ → Option (Update P)
  update_at u ref_time = do
    init ← init_at u.init ref_time
    usual ← function_at u.usual ref_time
    some (record { res = record { variable = u.res; at = ref_time }; init = init; usual = usual })
