-- ===== src/Symbol.antt =====
-- cxsom/src/cxsomSymbols.hpp: the names of variables, of time steps and of instances.
use text.Mathlib.Text.{◌==◌ as str_eq}
use text.Mathlib.TextEquality.{eq_iff}
use cxsom.Prelude.{ℕ, String, ◌≡◌, ◌↔◌, Bool, true, ◌&&◌, arith, ◌==◌, Eq}

-- A quantity that lives in a timeline.
pub record Variable : Type 0 where
  pub timeline : String
  pub name : String

-- The instances of one timeline at one date.
pub record TimeStep : Type 0 where
  pub timeline : String
  pub at : ℕ

-- A variable at a date.
pub record Instance : Type 0 where
  pub variable : Variable
  pub at : ℕ

abbrev pub name_eq : String → String → Bool
name_eq a b = str_eq a b

abbrev pub variable_eq : Variable → Variable → Bool
variable_eq v w = name_eq v.timeline w.timeline && name_eq v.name w.name

abbrev pub time_step_eq : TimeStep → TimeStep → Bool
time_step_eq s t = name_eq s.timeline t.timeline && s.at == t.at

abbrev pub instance_eq : Instance → Instance → Bool
instance_eq i j = variable_eq i.variable j.variable && i.at == j.at

pub variable_eq_iff : (v w : Variable) → (variable_eq v w ≡ true) ↔ (v ≡ w)
variable_eq_iff v w = ground (arith, eq_iff v.timeline w.timeline, eq_iff v.name w.name)

pub time_step_eq_iff : (s t : TimeStep) → (time_step_eq s t ≡ true) ↔ (s ≡ t)
time_step_eq_iff s t = ground (arith, eq_iff s.timeline t.timeline)

pub instance_eq_iff : (i j : Instance) → (instance_eq i j ≡ true) ↔ (i ≡ j)
instance_eq_iff i j = ground (arith, variable_eq_iff i.variable j.variable)

instance abbrev pub name_Eq : Eq String
name_Eq = record { beq = name_eq; beq_iff = eq_iff }

instance abbrev pub variable_Eq : Eq Variable
variable_Eq = record { beq = variable_eq; beq_iff = variable_eq_iff }

instance abbrev pub time_step_Eq : Eq TimeStep
time_step_Eq = record { beq = time_step_eq; beq_iff = time_step_eq_iff }

instance abbrev pub instance_Eq : Eq Instance
instance_Eq = record { beq = instance_eq; beq_iff = instance_eq_iff }

-- `Instance::belongs`
abbrev pub belongs : Instance → TimeStep → Bool
belongs i ts = i.at == ts.at && name_eq i.variable.timeline ts.timeline

-- `Instance::operator TimeStep`
abbrev pub time_step_of : Instance → TimeStep
time_step_of i = record { timeline = i.variable.timeline; at = i.at }
