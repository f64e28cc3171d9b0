-- ===== src/Data/Variable.antt =====
-- cxsom/src/cxsomVariable.hpp, the class `Variable`: the instances of a variable, found in a cache of those in
-- memory or read from its file. An instance is a shared pointer, named by its address.
pub mod Cache
pub mod Bound
pub mod Keeping
pub mod Life
pub mod Single
pub mod Tests
use cxsom.Prelude.{
  ℕ, suc, ◌-◌, ◌+◌, max, if◌then◌else◌, ltb, Option, none, some, find, length, ◌⊎◌, inl, inr, ◌==◌,
  add64, sub64, Eq,
}
use cxsom.Data.{Availability, availability_of, cast_availability}
use cxsom.Data.Instance.{Cell}
use cxsom.Data.File.{State, FileError, next_time}
use cxsom.Data.File
use cxsom.Data.File.Access
use cxsom.Data.Variable.Cache.{Cached, remove_oldest, emplace, date_Eq}

-- `file` and `cached_instances`. The instances in memory are `cells`, by their addresses, and `fresh` is
-- an address that is not used yet. The file on the disk is in `file`.
pub record Variable (T D : Type 0) : Type 0 where
  pub file : State T D
  pub cached : Cached
  pub cells : ℕ → Cell D
  pub fresh : ℕ

module _ {T D : Type 0} where
  -- `std::max(file.get_cache_size(), std::size_t(1))`
  abbrev pub bound : Variable T D → ℕ
  bound x = max x.file.file.header.cache_size 1

  -- The cache, with room for one instance more if it can be made.
  unfoldable pub make_room : (ℕ → ℕ) → Variable T D → Cached
  make_room use_count x =
      let next_size = add64 (length x.cached) 1 in
      if ltb (bound x) next_size
      then (remove_oldest use_count (sub64 next_size (bound x)) x.cached).1
      else x.cached

  -- A new instance, of a date that the file has been read at; `zeros` is what `data::make` gives.
  unfoldable pub make_instance :
      D → (ℕ → ℕ) → ℕ → Availability → Option D → Variable T D → ℕ × Variable T D
  make_instance zeros use_count at s d x =
      let c : Cell D = record {
        status = s;
        datation = 0;
        content = elim d [ none ↦ zeros | some v ↦ v ];
      } in
      (
        x.fresh,
        record x {
          cached = emplace at x.fresh (make_room use_count x);
          cells = λ r. if r == x.fresh then c else x.cells r;
          fresh = suc x.fresh;
        },
      )

  -- `instance`, which is also `operator[]`.
  unfoldable pub instance_at : D → (ℕ → ℕ) → ℕ → Variable T D → FileError ⊎ (ℕ × Variable T D)
  instance_at zeros use_count at x = elim (find at x.cached) [
    | some r ↦ inr (r, x)
    | none ↦ elim (Access.read at x.file) [
      | inl e ↦ inl e
      | inr (a, d) ↦ inr (make_instance zeros use_count at (availability_of a) d x)
    ]
  ]

  -- `sync`: the status that an instance takes, and the content if there is one.
  unfoldable pub sync : ℕ → Variable T D → FileError ⊎ (Availability × Option D × Variable T D)
  sync at x = elim (Access.sync x.file) [
    | inl e ↦ inl e
    | inr f ↦ elim (Access.read at f) [
      | inl e ↦ inl e
      | inr (a, d) ↦ inr (cast_availability a, d, record x { file = f })
    ]
  ]

  unfoldable pub declare_ready : D → ℕ → D → Variable T D → FileError ⊎ Variable T D
  declare_ready zeros at d x = elim (Access.write zeros at d x.file) [
    | inl e ↦ inl e
    | inr (a, f) ↦ inr (record x { file = f })
  ]

  unfoldable pub history_length : Variable T D → FileError ⊎ (ℕ × Variable T D)
  history_length x = elim (Access.sync x.file) [
    | inl e ↦ inl e
    | inr f ↦ inr (next_time f.file.header, record x { file = f })
  ]

  unfoldable pub clean_up : (ℕ → ℕ) → Variable T D → Variable T D
  clean_up use_count x = record x {
    cached = (remove_oldest use_count (length x.cached) x.cached).1;
  }
