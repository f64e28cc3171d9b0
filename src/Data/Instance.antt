-- ===== src/Data/Instance.antt =====
-- cxsom/src/cxsomVariable.hpp: a data instance in memory, as `Instance::get`, `set` and `sync` use it.
-- The instance is named by its symbol; the files behind it are an interface.
pub mod Locks
pub mod Race
use cxsom.Prelude.{ℕ, ◌&&◌, Option, none, some, if◌then◌else◌, ◌=?◌}
use cxsom.Symbol.{instance_Eq}
use cxsom.Symbol
use cxsom.Data.{Availability, FileAvailability, cast_availability, is_busy, is_ready}

-- `status`, `datation` (a `size_t`) and `content`.
pub record Cell (D : Type 0) : Type 0 where
  pub status : Availability
  pub datation : ℕ
  pub content : D

-- `Variable::declare_ready` and `Variable::sync` of the variable that owns an instance.
-- `sync` gives the content read, if the file has one.
pub record Files (D M : Type 0) : Type 0 where
  pub declare_ready : Symbol.Instance → D → M → M
  pub sync : Symbol.Instance → M → M × FileAvailability × Option D

pub record Memory (D M : Type 0) : Type 0 where
  pub cell : Symbol.Instance → Cell D
  pub files : M

abbrev pub assign :
    {D : Type 0} → Symbol.Instance → Cell D → (Symbol.Instance → Cell D) → Symbol.Instance → Cell D
assign w c f v = if w =? v then c else f v

module _ {D M : Type 0} (files : Files D M) where
  -- `Instance::set`: the writing function has run, and gives the cell `c`.
  unfoldable pub set : Symbol.Instance → Cell D → Memory D M → Memory D M
  set w c m = record {
    cell = assign w c m.cell;
    files =
        if is_busy (m.cell w).status && is_ready c.status
        then files.declare_ready w c.content m.files
        else m.files;
  }

  -- `Instance::sync`: the status is cast from the answer of the file.
  unfoldable pub sync : Symbol.Instance → Memory D M → Availability × Memory D M
  sync w m =
      let (f, a, d) = files.sync w m.files in
      let c = m.cell w in
      let c' : Cell D = record {
        status = cast_availability a;
        datation = c.datation;
        content = elim d [ none ↦ c.content | some x ↦ x ];
      } in
      (cast_availability a, record { cell = assign w c' m.cell; files = f })
