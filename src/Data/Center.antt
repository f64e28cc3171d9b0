-- ===== src/Data/Center.antt =====
-- cxsom/src/cxsomVariable.hpp, the class `Center`: the variables that are opened, and the files under the root
-- directory. The file of a variable that is opened is part of the variable.
pub mod Methods
pub mod Typing
pub mod Lasting
pub mod Checking
pub mod Tests
use cxsom.Prelude.{
  ℕ, Bool, not, if◌then◌else◌, false, Option, none, some, List, [], ◌∷◌, find, store, ◌⊎◌, inl, inr,
  Eq, ◌=?◌,
}
use cxsom.Symbol.{variable_Eq}
use cxsom.Symbol
use cxsom.Data.{Availability}
use cxsom.Data.Instance.{Cell}
use cxsom.Data.File.{Disk, File, FileError, realize}
use cxsom.Data.Variable.{Variable, instance_at}
use cxsom.Data.Variable

pub record Center (T D : Type 0) : Type 0 where
  pub variables : List (Symbol.Variable × Variable T D)
  pub files : Symbol.Variable → Option (Disk T D)

-- `error::unknown_variable`, and what a file throws. `error::type_mismatch` is one of these.
pub data CenterError : Type 0 where
  unknown_variable : CenterError
  of_file : FileError → CenterError

-- A `File` before `realize`.
abbrev unrealized : {T : Type 0} → File T
unrealized = record {
  type = none;
  header = record { cache_size = 0; file_size = 0; highest_time = 0; next_free_pos = 0 };
  realized = false;
}

-- `zeros` is the data that `data::make` gives for a type.
module _ {T D : Type 0} ⦃e : Eq T⦄ (zeros : Option T → D) where
  abbrev pub no_cell : ℕ → Cell D
  no_cell r = record { status = Availability.busy; datation = 0; content = zeros none }

  -- The constructor of `Variable`. It may throw what `realize` throws.
  unfoldable pub construct :
      Option T → Option ℕ → Option ℕ → Option (Disk T D) → CenterError ⊎ Variable T D
  construct type cache_size file_size file =
      let (thrown, f, disk) = realize (zeros type) type cache_size file_size unrealized file in
      elim thrown [
        | some x ↦ inl (CenterError.of_file x)
        | none ↦ elim disk [
          | none ↦ inl (CenterError.of_file FileError.not_realized)
          | some d ↦ inr (record {
            file = record { file = f; disk = d };
            cached = [];
            cells = no_cell;
            fresh = 0;
          })
        ]
      ]

  -- `get_var`
  unfoldable pub get_var : Symbol.Variable → Center T D → CenterError ⊎ (Variable T D × Center T D)
  get_var v c = elim (find v c.variables) [
    | some x ↦ inr (x, c)
    | none ↦ elim (c.files v) [
      | none ↦ inl CenterError.unknown_variable
      | some d ↦ elim (construct none none none (some d)) [
        | inl x ↦ inl x
        | inr x ↦ inr (x, record c { variables = store v x c.variables })
      ]
    ]
  ]

  -- `touch_var`
  unfoldable pub touch_var : Symbol.Variable → Center T D → CenterError ⊎ Center T D
  touch_var v c = elim (find v c.variables) [
    | some x ↦ inr c
    | none ↦ elim (c.files v) [
      | none ↦ inl CenterError.unknown_variable
      | some d ↦ elim (construct none none none (some d)) [
        | inl x ↦ inl x
        | inr x ↦ inr (record c { variables = store v x c.variables })
      ]
    ]
  ]

  -- `check_all`, over the variables whose files the directory lists.
  unfoldable pub check_all : List Symbol.Variable → Center T D → CenterError ⊎ Center T D
  check_all [] c = inr c
  check_all (v ∷ rest) c = elim (touch_var v c) [ inl x ↦ inl x | inr c' ↦ check_all rest c' ]

  -- `clear`. The files stay.
  unfoldable pub clear : Center T D → Center T D
  clear c = record {
    variables = [];
    files = λ v. elim (find v c.variables) [ some x ↦ some x.file.disk | none ↦ c.files v ];
  }

  -- `operator[]`. It opens no file.
  unfoldable pub get_instance :
      (ℕ → ℕ) → Symbol.Instance → Center T D → CenterError ⊎ (ℕ × Center T D)
  get_instance use_count i c = elim (find i.variable c.variables) [
    | none ↦ inl CenterError.unknown_variable
    | some x ↦ elim (instance_at (zeros x.file.file.type) use_count i.at x) [
      | inl y ↦ inl (CenterError.of_file y)
      | inr (r, y) ↦ inr (r, record c { variables = store i.variable y c.variables })
    ]
  ]

  -- `type_of`
  unfoldable pub type_of : Symbol.Variable → Center T D → CenterError ⊎ (Option T × Center T D)
  type_of v c = elim (get_var v c) [ inl x ↦ inl x | inr (x, c') ↦ inr (x.file.file.type, c') ]

  -- `history_length`
  unfoldable pub history_length : Symbol.Variable → Center T D → CenterError ⊎ (ℕ × Center T D)
  history_length v c = elim (get_var v c) [
    | inl x ↦ inl x
    | inr (x, c') ↦ elim (Variable.history_length x) [
      | inl y ↦ inl (CenterError.of_file y)
      | inr (n, y) ↦ inr (n, record c' { variables = store v y c'.variables })
    ]
  ]

  -- `check`. The type of a variable that is opened is compared; else the variable is opened, and its
  -- file is made if there is none.
  unfoldable pub check :
      Symbol.Variable → T → Option ℕ → Option ℕ → Center T D → CenterError ⊎ Center T D
  check v type cache_size file_size c = elim (find v c.variables) [
    | none ↦ elim (construct (some type) cache_size file_size (c.files v)) [
      | inl x ↦ inl x
      | inr x ↦ inr (record c { variables = store v x c.variables })
    ]
    | some x ↦
        let mismatch : Bool = elim x.file.file.type [ none ↦ false | some t ↦ not (type =? t) ] in
        if mismatch then inl (CenterError.of_file FileError.type_mismatch) else inr c
  ]
