-- ===== src/Update/Exec.antt =====
-- cxsom/src/cxsomUpdate.hpp: `Base::operator()`, the execution of an update.
pub mod Result
pub mod Dating
use cxsom.Prelude.{
  ℕ, Bool, true, false, not, ◌&&◌, ◌||◌, Option, none, some, List, [], ◌∷◌, if◌then◌else◌, is_empty,
}
use cxsom.Symbol
use cxsom.Data.{Availability, is_busy, is_ready}
use cxsom.Data.Instance.{Cell, Files, Memory, set}
use cxsom.Update.{
  Status, InArg, OutArg, Res, Base, Hooks, u32, notify_datation, note_in_arg, init_in_arg_date,
  no_in_arg_update, set_date,
}

pub record Outs (F : Type 0) : Type 0 where
  pub args : List OutArg
  pub ok : Bool
  pub self : F

-- What a call returns and leaves behind.
pub record Run (F D M : Type 0) : Type 0 where
  pub status : Status
  pub self : Base F
  pub memory : Memory D M

pub record Ins (F : Type 0) : Type 0 where
  pub args : List InArg
  pub result : Res
  pub self : F

module _ {F D : Type 0} (hooks : Hooks F D) where
  -- The loop over `args_out`: after the first argument that is not ready, none is read.
  unfoldable pub read_outs : (Symbol.Instance → Cell D) → List OutArg → Bool → F → Outs F
  read_outs cell [] ok f = record { args = []; ok = ok; self = f }
  read_outs cell (a ∷ rest) ok f =
      let c = cell a.who in
      let ok' = is_ready c.status && ok in
      let f' = if ok' then hooks.on_read_out_arg a.who a.arg_number c.content f else f in
      let r = read_outs cell rest ok' f' in
      record r { args = record a { availability = c.status } ∷ r.args }

  -- The loop over `args_in`.
  unfoldable pub read_ins : (Symbol.Instance → Cell D) → List InArg → Res → F → Ins F
  read_ins cell [] r f = record { args = []; result = r; self = f }
  read_ins cell (a ∷ rest) r f =
      let c = cell a.who in
      let a' = notify_datation a c.status (u32 c.datation) in
      let f' = hooks.on_read_in_arg a.who a.arg_number c.content f in
      let i = read_ins cell rest (note_in_arg r a') f' in record i { args = a' ∷ i.args }

  module _ {M : Type 0} (files : Files D M) where
    -- The writing of the result, under `result.what->set`.
    unfoldable pub write_result : Base F → Memory D M → Run F D M
    write_result u m =
        let w = u.result.who in
        let c = m.cell w in
        let (significant, d, f) = hooks.on_write_result c.content u.self in
        let fresh = significant || not u.result.updated_once in
        let datation' = if fresh then set_date u.result (u32 c.datation) else c.datation in
        let result' = if fresh then record (u.result) { updated_once = true } else u.result in
        let st =
          if u.result.all_ready
          then (if u.is_init then Status.updated else Status.done)
          else if fresh || u.is_init
          then Status.updated
          else Status.up_to_date in
        let status' =
          if u.result.all_ready && not u.is_init then Availability.ready else c.status in
        record {
          status = st;
          self = record u { result = result'; self = f };
          memory = set files w (record { status = status'; datation = datation'; content = d }) m;
        }

    -- The update once its in-arguments are read.
    abbrev pub after_ins : Base F → Memory D M → Base F
    after_ins u m =
        let i = read_ins m.cell u.args_in (init_in_arg_date u.result) u.self in
        record u { args_in = i.args; result = i.result; self = i.self }

    -- There are in-arguments, and none has changed since the last execution.
    abbrev pub skips : Base F → Memory D M → Bool
    skips u m =
        let v = after_ins u m in
        not (is_empty u.args_in) && (no_in_arg_update v.result && v.result.updated_once)

    abbrev pub skipped : Base F → Memory D M → Run F D M
    skipped u m = record {
      status = if u.is_init then Status.updated else Status.up_to_date;
      self = after_ins u m;
      memory = m;
    }

    -- From the inspection of the in-arguments on.
    unfoldable pub compute : Base F → Memory D M → Run F D M
    compute u m = if skips u m then skipped u m else write_result (after_ins u m) m

    -- The update once its out-arguments are read.
    abbrev pub after_outs : Base F → Memory D M → Base F
    after_outs u m =
        let r = read_outs m.cell u.args_out true u.self in
        record u { args_out = r.args; out_ok = r.ok; self = r.self }

    abbrev pub aborted : Base F → Memory D M → Run F D M
    aborted u m =
        let v = after_outs u m in
        record {
          status = Status.impossible;
          self = record v { self = hooks.on_read_out_arg_aborted v.self };
          memory = m;
        }

    -- The inspection of the out-arguments, once the result is known to be busy.
    unfoldable pub inspect_outs : Base F → Memory D M → Run F D M
    inspect_outs u m =
        if u.out_ok
        then compute u m
        else if (after_outs u m).out_ok
        then compute (after_outs u m) m
        else aborted u m

    -- The update once its computation has started.
    abbrev pub started : Base F → Base F
    started u = record u { self = hooks.on_computation_start u.self }

    -- `operator()`
    unfoldable pub exec : Base F → Memory D M → Run F D M
    exec u m =
        if is_ready (m.cell u.result.who).status
        then record { status = Status.done; self = u; memory = m }
        else inspect_outs (started u) m
