-- ===== src/TimeStep/Run/Life/NoInit.antt =====
-- The stable and the confirmed queues hold usual updates only.
use cxsom.Prelude.{◌≡◌, refl, Bool, true, false, some, List, [], ◌∷◌, arith, All, All-append}
use cxsom.TimeStep.{
  Content, Updates, Instance, Task, has_init, settle, update_status, busy_unbounds_found,
  set_all_ready,
}
use cxsom.TimeStep.Run.{remove_where, mark, hand_out, requeue}
use cxsom.TimeStep.Run.Life.Running.{All-remove_first}

abbrev pub IsUsual : Content → Type 0
IsUsual c = has_init c ≡ false

abbrev pub NoInit : Instance → Type 0
NoInit i = All IsUsual i.stable × All IsUsual i.confirmed

pub NoInit-remove_where : (p : Content → Bool) (i : Instance) → NoInit i → NoInit (remove_where p i)
unfolding remove_where
NoInit-remove_where p i h =
    ground
      (arith, All-remove_first IsUsual p i.stable h.0, All-remove_first IsUsual p i.confirmed h.1)

All-mark : (cs : List Content) → All IsUsual cs → All IsUsual (mark cs)
unfolding mark
All-mark [] h = h
All-mark (c ∷ cs) h = ground (arith, All-mark cs h.1)

pub NoInit-hand_out : (i : Instance) → NoInit i → NoInit (hand_out i).self
unfolding hand_out
NoInit-hand_out i h = ground (arith, All-mark i.stable h.0)

-- `update.usual` for each content
pub set_usual_ready : {S : Type 0} → Updates S → List Content → S → S
set_usual_ready ops [] s = s
set_usual_ready ops (c ∷ cs) s = set_usual_ready ops cs (ops.set_ready c.usual s)

module _ {S : Type 0} (ops : Updates S) where
  pub NoInit-requeue :
      (s : S) (t : Task) (i : Instance) {j : Instance}
      → NoInit i
      → requeue ops s t i ≡ some j
      → NoInit j
  unfolding requeue
  NoInit-requeue s t i h e = ground (
    arith,
    All-append IsUsual i.stable (t.update ∷ []) h.0,
    All-append IsUsual i.confirmed (t.update ∷ []) h.1,
  )

  pub NoInit-update_status : (s : S) (i : Instance) → NoInit i → NoInit (update_status ops s i).self
  unfolding update_status busy_unbounds_found settle
  NoInit-update_status s i h = ground (arith, All-append IsUsual i.stable i.confirmed h.0 h.1)

  set_all_ready_usual :
      (cs : List Content) (s : S)
      → All IsUsual cs
      → set_all_ready ops cs s ≡ set_usual_ready ops cs s
  unfolding set_all_ready set_usual_ready
  set_all_ready_usual [] s h = refl
  set_all_ready_usual (c ∷ cs) s h =
      ground (arith, set_all_ready_usual cs (ops.set_ready c.usual s) h.1)

  -- When a time step gets `Done`, `set_ready` is called on the usual update of each confirmed
  -- content, in order, and never on an init update; otherwise the state of the updates is not touched.
  pub update_status-store :
      (s : S) (i : Instance)
      → NoInit i
      → let o = update_status ops s i in
        ((o.notified ≡ true) → o.store ≡ set_usual_ready ops i.confirmed s)
        × ((o.notified ≡ false) → o.store ≡ s)
  unfolding update_status busy_unbounds_found settle
  update_status-store s i h =
      (λ n. ground (arith, set_all_ready_usual i.confirmed s h.1), λ n. ground arith)
