-- ===== src/Rules.antt =====
-- cxsom/src/cxsomRuleDefs.hpp and cxsom/src/cxsom-rules.hpp: the rules that a program declares, before they are
-- sent. `D` are the doubles of the parameters. What may throw gives its error, if any, and the context.
pub mod Context
pub mod Renaming
pub mod Keeping
pub mod Stored
pub mod Sound
pub mod Moving
pub mod Tests
use cxsom.Prelude.{
  ℕ, String, Bool, true, false, not, ◌&&◌, ◌||◌, if◌then◌else◌, ◌==◌, ==_iff, Option, none, some,
  List, [], ◌∷◌, ◌++◌, map, arith, ◌≡◌, ◌↔◌, Eq, ◌=?◌, find, store, contains, insert, erase,
}
use cxsom.Symbol.{name_eq, name_Eq}
use cxsom.Job.{ℤ, pos, negsuc}

pub data RuleError : Type 0 where
  unknown_variable redeclare_type bad_update double_update invalid_rename : RuleError

-- `step`
pub data Step : Type 0 where
  instant : ℕ → Step
  offset : ℤ → Step
  scale : ℕ → Step

pub record ValueKey : Type 0 where
  pub timeline : String
  pub name : String

pub record ValueAtKey : Type 0 where
  pub key : ValueKey
  pub date : Step

-- `kwd::data`
pub record Data : Type 0 where
  pub id : ValueAtKey

pub record Param (D : Type 0) : Type 0 where
  pub name : String
  pub value : D

pub record Update (D : Type 0) : Type 0 where
  pub name : String
  pub dest : Data
  pub args : List Data
  pub params : List (Param D)

-- `type_info`
pub record TypeInfo : Type 0 where
  pub type : String
  pub cache_size : ℕ
  pub file_size : ℕ
  pub kept_opened : Bool

abbrev int_eq : ℤ → ℤ → Bool
int_eq (pos m) (pos n) = m == n
int_eq (negsuc m) (negsuc n) = m == n
int_eq (pos m) (negsuc n) = false
int_eq (negsuc m) (pos n) = false

abbrev pub step_eq : Step → Step → Bool
step_eq (Step.instant m) (Step.instant n) = m == n
step_eq (Step.offset m) (Step.offset n) = int_eq m n
step_eq (Step.scale m) (Step.scale n) = m == n
step_eq s t = false

abbrev pub key_eq : ValueKey → ValueKey → Bool
key_eq k l = name_eq k.timeline l.timeline && name_eq k.name l.name

abbrev pub at_key_eq : ValueAtKey → ValueAtKey → Bool
at_key_eq v w = key_eq v.key w.key && step_eq v.date w.date

abbrev same_flag : Bool → Bool → Bool
same_flag a b = if a then b else not b

-- The equality of tuples.
abbrev pub info_eq : TypeInfo → TypeInfo → Bool
info_eq i j =
    name_eq i.type j.type
    && (i.cache_size == j.cache_size
        && (i.file_size == j.file_size && same_flag i.kept_opened j.kept_opened))

int_eq_iff : (m n : ℤ) → (int_eq m n ≡ true) ↔ (m ≡ n)
int_eq_iff m n = ground arith

step_eq_iff : (s t : Step) → (step_eq s t ≡ true) ↔ (s ≡ t)
step_eq_iff s t = ground arith

pub key_eq_iff : (k l : ValueKey) → (key_eq k l ≡ true) ↔ (k ≡ l)
key_eq_iff k l =
    ground (arith, name_Eq.beq_iff k.timeline l.timeline, name_Eq.beq_iff k.name l.name)

pub at_key_eq_iff : (v w : ValueAtKey) → (at_key_eq v w ≡ true) ↔ (v ≡ w)
at_key_eq_iff v w = ground (arith, key_eq_iff v.key w.key, step_eq_iff v.date w.date)

instance abbrev pub key_Eq : Eq ValueKey
key_Eq = record { beq = key_eq; beq_iff = key_eq_iff }

instance abbrev pub at_key_Eq : Eq ValueAtKey
at_key_Eq = record { beq = at_key_eq; beq_iff = at_key_eq_iff }
