-- ===== src/Engine/Tests.antt =====
-- Two updates of one time step that read each other, and the theorems on them.
use cxsom.Prelude.{
  ℕ, ◌≤◌, ◌≡◌, ◌≢◌, ◌⊎◌, refl, String, true, false, not, none, some, ◌++◌, List, [], ◌∷◌, arith,
  if◌then◌else◌, ◌==◌, inl, count, contains, insert, erase, insert_all,
}
use cxsom.Symbol.{Variable, TimeStep, variable_Eq, instance_Eq, time_step_Eq, instance_eq_iff}
use cxsom.Symbol
use cxsom.Data.{Availability, FileAvailability}
use cxsom.Data.Instance.{Files, Memory, set}
use cxsom.Update
use cxsom.Update.{notify_datation, note_in_arg, Base, Hooks, InArg, OutArg, Res, blockers}
use cxsom.Update.Exec.{exec, inspect_outs, compute, write_result, read_ins, read_outs}
use cxsom.Update.Exec.Result.{Effect, exec-Effect, exec-impossible}
use cxsom.Update.Exec.Dating.{exec-exec}
use cxsom.TimeStep.{
  Status, Queue, Content, Updates, Instance, Task, make, scan_arg, scan_args, scan_content,
  scan_queue, busy_unbounds_found, settle, update_status, test_add, add, clear_blocking_info,
  notify_unblock, check_unbound, set_all_ready,
}
use cxsom.TimeStep.Settling.{Settled, update_status-Settled, is_done}
use cxsom.TimeStep.Totals.{total}
use cxsom.TimeStep.Run.{
  named, remove_first, remove_where, remove_update, requeue, report, run_task, get_jobs, hand_out,
  jobs_of, mark,
}
use cxsom.TimeStep.Run.Unique.{total-report}
use cxsom.TimeStep.Run.Progress.{get_jobs-clear_blocking_info}
use cxsom.TimeStep.Run.Life.{Life, Reach, born, adds, asks, runs, unblocks, here, next}
use cxsom.TimeStep.Run.Life.Running.{task_named}
use cxsom.TimeStep.Run.Life.NoInit.{set_usual_ready}
use cxsom.TimeStep.Run.Life.Safety.{pending_once, done-pending, no_deadlock, ready_usual_only}
use cxsom.Engine.{Store, Rule, updates, exec_at}
use cxsom.Engine.Blocking.{run_task-blocked}

abbrev now : TimeStep
now = record { timeline = "main"; at = 0 }

abbrev at_main : String → ℕ → Symbol.Instance
at_main n k = record { variable = record { timeline = "main"; name = n }; at = k }

-- The result becomes what was read last.
abbrev copying : Hooks ℕ ℕ
copying = record {
  on_computation_start = λ f. f;
  on_read_out_arg = λ w n d f. d;
  on_read_out_arg_aborted = λ f. f;
  on_read_in_arg = λ w n d f. d;
  on_write_result = λ d f. (not (d == f), f, f);
}

abbrev logged : Files ℕ (List (Symbol.Instance × ℕ))
logged = record {
  declare_ready = λ w d m. (w, d) ∷ m;
  sync = λ w m. (m, FileAvailability.busy, none);
}

abbrev rules : ℕ → Rule
rules p =
    if p == 0
    then record { who = at_main "x" 0; args_in = at_main "y" 0 ∷ [] }
    else record { who = at_main "y" 0; args_in = at_main "x" 0 ∷ [] }

abbrev res : String → Res
res n = record {
  who = at_main n 0;
  max_in_args_date = none;
  all_ready = false;
  updated_once = false;
}

abbrev in_arg : String → InArg
in_arg n = record {
  who = at_main n 0;
  availability = Availability.busy;
  arg_number = 0;
  update = none;
  date = 0;
}

abbrev out_arg : OutArg
out_arg = record { who = at_main "z" 7; availability = Availability.busy; arg_number = 1 }

abbrev x_from_y : Base ℕ
x_from_y = record {
  result = res "x";
  args_in = in_arg "y" ∷ [];
  args_out = [];
  is_init = false;
  out_ok = false;
  self = 0;
}

-- The second update waits for `z` at date 7.
abbrev y_from_x : Base ℕ
y_from_x = record x_from_y { result = res "y"; args_in = in_arg "x" ∷ []; args_out = out_arg ∷ [] }

abbrev memory : Memory ℕ (List (Symbol.Instance × ℕ))
memory = record {
  cell = λ w. record { status = Availability.busy; datation = 0; content = 4 };
  files = [];
}

abbrev store : Store ℕ ℕ (List (Symbol.Instance × ℕ))
store = record { base = λ p. if p == 0 then x_from_y else y_from_x; memory = memory }

abbrev ops : Updates (Store ℕ ℕ (List (Symbol.Instance × ℕ)))
ops = updates copying logged rules

abbrev x_content : Content
x_content = record { init = none; usual = 0; no_processing = true }

abbrev y_content : Content
y_content = record { init = none; usual = 1; no_processing = true }

abbrev both : Instance
both = record (make now) {
  variables = (at_main "x" 0).variable ∷ (at_main "y" 0).variable ∷ [];
  unstable = x_content ∷ y_content ∷ [];
}

abbrev task : Content → Task
task c = record { step = now; update = c; source = Queue.unstable; report = Update.Status.none_yet }

y-ne-x : at_main "y" 0 ≢ at_main "x" 0
y-ne-x e = cc ((instance_eq_iff (at_main "y" 0) (at_main "x" 0)).1 e)

exec-Effect_example : Effect logged (at_main "x" 0) memory (exec copying logged x_from_y memory)
exec-Effect_example = exec-Effect logged copying x_from_y memory

exec_x : (exec copying logged x_from_y memory).status ≡ Update.Status.updated
unfolding exec inspect_outs compute write_result read_ins read_outs notify_datation note_in_arg set
exec_x = refl

exec_y : (exec copying logged y_from_x memory).status ≡ Update.Status.impossible
unfolding exec inspect_outs compute write_result read_ins read_outs notify_datation note_in_arg set
exec_y = refl

exec-impossible_example :
    ((exec copying logged y_from_x memory).memory ≡ memory)
    × ((exec copying logged y_from_x memory).self.out_ok ≡ false)
    × (blockers (exec copying logged y_from_x memory).self.args_out ≢ [])
exec-impossible_example = (exec-impossible logged copying y_from_x memory).1 exec_y

exec-exec_example :
    let r = exec copying logged x_from_y memory in
    let again = exec copying logged r.self r.memory in
    (again.status ≡ Update.Status.up_to_date) × (again.memory ≡ r.memory)
exec-exec_example = exec-exec copying logged x_from_y memory refl refl ((λ e. y-ne-x e), tt) exec_x

update_status-Settled_example :
    let o = update_status ops store both in
    Settled o.self.status o.self × (o.notified ≡ is_done o.self.status)
update_status-Settled_example = update_status-Settled ops store both

-- `x` is reported as up to date while `y` is still to be run.
abbrev x_stable : Instance
x_stable = record both { unstable = y_content ∷ []; stable = x_content ∷ [] }

abbrev up_to_date_x : Task
up_to_date_x = record (task x_content) { report = Update.Status.up_to_date }

total-report_example : total (named ops "x") (update_status ops store x_stable).self ≡ 1
unfolding report requeue remove_update remove_where remove_first update_status busy_unbounds_found
    scan_queue settle
total-report_example =
    total-report ops "x" store up_to_date_x both {o = update_status ops store x_stable} refl refl

abbrev stuck : Instance
stuck = record both { status = Status.unbound; unstable = x_content ∷ []; fresh = y_content ∷ [] }

get_jobs-clear_blocking_info_example :
    let (j, s) = clear_blocking_info ops store stuck in (get_jobs ops s j).found ≡ true
unfolding clear_blocking_info scan_queue scan_content scan_args scan_arg contains
get_jobs-clear_blocking_info_example =
    get_jobs-clear_blocking_info ops store stuck refl (refl, tt) tt (refl, tt) tt (omega arith)

-- `x` and `y` are added, and their tasks handed out.
abbrev added : Life (Store ℕ ℕ (List (Symbol.Instance × ℕ)))
added = record (born now store) { self = add ops y_content (add ops x_content (make now)) }

abbrev asked : Life (Store ℕ ℕ (List (Symbol.Instance × ℕ)))
asked = record {
  self = (get_jobs ops store added.self).self;
  store = store;
  pending = (get_jobs ops store added.self).tasks;
}

added-Reach : Reach ops (born now store) added
added-Reach = next (next here (adds (born now store) x_content refl)) (adds _ y_content refl)

asked-Reach : Reach ops (born now store) asked
asked-Reach = next added-Reach (asks added)

pending_once_example :
    (total (named ops "x") asked.self ≤ 1) × (count (task_named ops "x") asked.pending ≤ 1)
pending_once_example = pending_once ops now store asked-Reach "x"

done-pending_example : (born now store).pending ≡ []
done-pending_example = done-pending ops now store here (refl, refl, refl, refl, refl)

-- Updates that are always up to date; what is made ready is noted.
abbrev steady : Updates (List ℕ)
steady = record {
  who = λ p. at_main "x" 0;
  args_in = λ p. [];
  availability = λ s r. Availability.busy;
  blockers_range = λ s p. [];
  set_ready = λ p s. p ∷ s;
  sync_arguments = λ p s. s;
  set_is_init = λ p b s. s;
  exec = λ p s. (Update.Status.up_to_date, s);
}

abbrev x_added : Life (List ℕ)
x_added = record (born now []) { self = add steady x_content (make now) }

abbrev x_asked : Life (List ℕ)
x_asked = record {
  self = (get_jobs steady [] x_added.self).self;
  store = [];
  pending = (get_jobs steady [] x_added.self).tasks;
}

-- `x` has been found stable, and is checked.
abbrev x_checked : Instance
x_checked = record (make now) {
  status = Status.checking;
  variables = (at_main "x" 0).variable ∷ [];
  stable = x_content ∷ [];
}

abbrev x_again : Life (List ℕ)
x_again = record {
  self = (get_jobs steady [] x_checked).self;
  store = [];
  pending = (get_jobs steady [] x_checked).tasks;
}

abbrev x_task : Task
x_task = task x_content

x_again-Reach : Reach steady (born now []) x_again
unfolding get_jobs check_unbound hand_out jobs_of mark run_task report requeue remove_update
    remove_where remove_first update_status busy_unbounds_found scan_queue scan_content scan_args
    settle add test_add contains insert
x_again-Reach =
    next
      (next (next (next here (adds (born now []) x_content refl)) (asks x_added)) (
        runs x_asked [] x_task [] (record { self = x_checked; store = []; notified = false }) false
          refl refl))
      (asks (record { self = x_checked; store = []; pending = [] }))

abbrev x_log : List ℕ
x_log = 0 ∷ []

abbrev x_done : Instance
x_done = record (make now) { status = Status.done; variables = (at_main "x" 0).variable ∷ [] }

ready_usual_only_example :
    (j : Instance) × (requeue steady []
        (record x_task { source = Queue.stable; report = Update.Status.up_to_date })
        (remove_update steady "x" x_again.self)
      ≡ some j)
    × (x_log ≡ set_usual_ready steady j.confirmed [])
unfolding get_jobs check_unbound hand_out jobs_of mark run_task report requeue remove_update
    remove_where remove_first update_status busy_unbounds_found scan_queue scan_content scan_args
    settle set_all_ready add test_add contains insert
ready_usual_only_example =
    ready_usual_only steady now [] x_again-Reach (record x_task { source = Queue.stable })
      {o = record { self = x_done; store = x_log; notified = true }} {b = false} refl

-- A status update, for a time step that it does not wait for, before any task.
abbrev roused : Life (Store ℕ ℕ (List (Symbol.Instance × ℕ)))
roused = record added { self = (notify_unblock ops now store added.self).self }

roused-Reach : Reach ops (born now store) roused
unfolding notify_unblock update_status busy_unbounds_found scan_queue scan_content scan_args
    scan_arg settle add test_add contains insert erase
roused-Reach = next added-Reach (unblocks added now)

no_deadlock_example : (get_jobs ops store roused.self).found ≡ true
unfolding notify_unblock update_status busy_unbounds_found scan_queue scan_content scan_args
    scan_arg settle add test_add contains insert erase
no_deadlock_example =
    no_deadlock ops now store roused-Reach refl (inl refl) (refl, refl, (λ e. cc), refl)

-- `y` waits for the time step of `z`.
abbrev y_waits : Instance
y_waits = record both {
  unstable = x_content ∷ [];
  impossible = y_content ∷ [];
  blockers = record { timeline = "main"; at = 7 } ∷ [];
  new_blockers = record { timeline = "main"; at = 7 } ∷ [];
}

abbrev y_ran : Store ℕ ℕ (List (Symbol.Instance × ℕ))
y_ran = (exec_at copying logged rules 1 store).1

run_task-blocked_example :
    let i = (update_status ops y_ran y_waits).self in
    (i.impossible ≡ (remove_update ops "y" both).impossible ++ y_content ∷ [])
    × (i.blockers ≢ [])
    × (i.new_blockers ≢ [])
    × ((i.status ≡ Status.blocked) ⊎ (i.status ≡ Status.unbound))
unfolding run_task report requeue remove_update remove_where remove_first exec_at exec inspect_outs
    compute write_result read_ins read_outs notify_datation note_in_arg set blockers insert_all
    insert contains
run_task-blocked_example =
    run_task-blocked copying logged rules store (task y_content) both
      {o = update_status ops y_ran y_waits} refl
