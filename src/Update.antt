-- ===== src/Update.antt =====
-- cxsom/src/cxsomUpdate.hpp: the rule that sets one instance from others. The virtual functions of
-- the subclasses are an interface over the subclass's own state `F`.
pub mod Exec
use cxsom.Prelude.{
  ℕ, ◌+◌, ◌%◌, ◌^◌, max, Bool, true, false, not, ◌&&◌, ◌||◌, Option, none, some, List, [], ◌∷◌,
  if◌then◌else◌, ltb,
}
use cxsom.Symbol.{TimeStep, time_step_of}
use cxsom.Symbol
use cxsom.Data.{Availability, is_busy, is_ready}
use cxsom.Data.Instance.{Cell, Files, Memory, set, sync}

pub data Status : Type 0 where
  impossible up_to_date updated done none_yet : Status

-- `unsigned int`
abbrev pub u32 : ℕ → ℕ
u32 n = n % 2 ^ 32

pub record InArg : Type 0 where
  pub who : Symbol.Instance
  pub availability : Availability
  pub arg_number : ℕ
  pub update : Option ℕ
  pub date : ℕ

pub record OutArg : Type 0 where
  pub who : Symbol.Instance
  pub availability : Availability
  pub arg_number : ℕ

pub record Res : Type 0 where
  pub who : Symbol.Instance
  pub max_in_args_date : Option ℕ
  pub all_ready : Bool
  pub updated_once : Bool

pub record Base (F : Type 0) : Type 0 where
  pub result : Res
  pub args_in : List InArg
  pub args_out : List OutArg
  pub is_init : Bool
  pub out_ok : Bool
  pub self : F

pub record Hooks (F D : Type 0) : Type 0 where
  pub on_computation_start : F → F
  pub on_read_out_arg : Symbol.Instance → ℕ → D → F → F
  pub on_read_out_arg_aborted : F → F
  pub on_read_in_arg : Symbol.Instance → ℕ → D → F → F
  pub on_write_result : D → F → Bool × D × F

-- `InArgInstance::notify_datation`
unfoldable pub notify_datation : InArg → Availability → ℕ → InArg
notify_datation arg a datation =
    if (is_ready a && is_busy arg.availability) || ltb arg.date datation
    then record arg { availability = a; date = datation; update = some datation }
    else record arg { availability = a; update = none }

-- `ResInstance::operator<=`
unfoldable pub note_in_arg : Res → InArg → Res
note_in_arg r arg = record r {
  max_in_args_date = elim arg.update [
    | none ↦ r.max_in_args_date
    | some d ↦ some (elim r.max_in_args_date [ none ↦ d | some m ↦ max m d ])
  ];
  all_ready = r.all_ready && is_ready arg.availability;
}

abbrev pub init_in_arg_date : Res → Res
init_in_arg_date r = record r { all_ready = true; max_in_args_date = none }

abbrev pub no_in_arg_update : Res → Bool
no_in_arg_update r = elim r.max_in_args_date [ none ↦ true | some d ↦ false ]

-- `ResInstance::set_date`
abbrev pub set_date : Res → ℕ → ℕ
set_date r current = elim r.max_in_args_date [
  | none ↦ u32 (1 + current)
  | some m ↦ u32 (1 + max current m)
]

-- `blockers_range`
unfoldable pub blockers : List OutArg → List TimeStep
blockers [] = []
blockers (a ∷ rest) =
    let more = blockers rest in
    if not (is_ready a.availability) then time_step_of a.who ∷ more else more

module _ {D M : Type 0} (files : Files D M) where
  -- `set_ready`
  unfoldable pub set_ready : {F : Type 0} → Base F → Memory D M → Memory D M
  set_ready u m =
      set files u.result.who (record (m.cell u.result.who) { status = Availability.ready }) m

  -- The loops of `sync_arguments_availability`: only the arguments known as busy are synced.
  unfoldable pub sync_out : List OutArg → Memory D M → List OutArg × Memory D M
  sync_out [] m = ([], m)
  sync_out (a ∷ rest) m =
      let (v, m') = sync files a.who m in
      let (a', m'') : OutArg × Memory D M =
        if is_busy a.availability then (record a { availability = v }, m') else (a, m) in
      let (synced, last) = sync_out rest m'' in (a' ∷ synced, last)

  unfoldable pub sync_in : List InArg → Memory D M → List InArg × Memory D M
  sync_in [] m = ([], m)
  sync_in (a ∷ rest) m =
      let (v, m') = sync files a.who m in
      let (a', m'') : InArg × Memory D M =
        if is_busy a.availability then (record a { availability = v }, m') else (a, m) in
      let (synced, last) = sync_in rest m'' in (a' ∷ synced, last)

  unfoldable pub sync_arguments_availability :
      {F : Type 0} → Base F → Memory D M → Base F × Memory D M
  sync_arguments_availability u m =
      let (outs, m') = sync_out u.args_out m in
      let (ins, m'') = sync_in u.args_in m' in (record u { args_out = outs; args_in = ins }, m'')
