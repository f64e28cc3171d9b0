-- ===== src/Engine.antt =====
-- The updates of cxsom/src/cxsomUpdate.hpp behind the interface that the time steps of
-- cxsom/src/cxsomTimeStep.hpp use: a heap of updates, and the data instances in memory.
pub mod Blocking
mod Tests
use cxsom.Prelude.{ℕ, Bool, List, map, if◌then◌else◌, ◌==◌}
use cxsom.Symbol
use cxsom.Data.Instance.{Files, Memory}
use cxsom.Update
use cxsom.Update.{Base, Hooks, blockers, set_ready, sync_arguments_availability}
use cxsom.Update.Exec.{Run, exec}
use cxsom.TimeStep.{Updates}

pub record Store (F D M : Type 0) : Type 0 where
  pub base : ℕ → Base F
  pub memory : Memory D M

-- What an update is built with and keeps: its result, and its in-arguments.
pub record Rule : Type 0 where
  pub who : Symbol.Instance
  pub args_in : List Symbol.Instance

abbrev pub write : {A : Type 0} → ℕ → A → (ℕ → A) → ℕ → A
write p a heap q = if p == q then a else heap q

module _ {F D M : Type 0} (hooks : Hooks F D) (files : Files D M) (rules : ℕ → Rule) where
  unfoldable pub exec_at : ℕ → Store F D M → Update.Status × Store F D M
  exec_at p s =
      let r = exec hooks files (s.base p) s.memory in
      (r.status, record { base = write p r.self s.base; memory = r.memory })

  unfoldable pub sync_at : ℕ → Store F D M → Store F D M
  sync_at p s =
      let (u, m) = sync_arguments_availability files (s.base p) s.memory in
      record { base = write p u s.base; memory = m }

  abbrev pub updates : Updates (Store F D M)
  updates = record {
    who = λ p. (rules p).who;
    args_in = λ p. (rules p).args_in;
    availability = λ s w. (s.memory.cell w).status;
    blockers_range = λ s p. blockers (s.base p).args_out;
    set_ready = λ p s. record s { memory = set_ready files (s.base p) s.memory };
    sync_arguments = sync_at;
    set_is_init = λ p b s. record s { base = write p (record (s.base p) { is_init = b }) s.base };
    exec = exec_at;
  }
