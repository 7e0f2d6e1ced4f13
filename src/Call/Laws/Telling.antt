-- ===== src/Call/Laws/Telling.antt =====
-- What `finish`, `hangUp` and `onAppLocking` of src/calls/controller.ts tell.
use nuco_messenger.Call.Ends.{
  LockTask, captured, lock_plan, lock_row, lock_signal, lock_task, lock_teardown, on_app_locking,
  set_idle,
}
use nuco_messenger.Call.Incoming.{hang_up_in}
use nuco_messenger.Call.Laws.Told.{told}
use nuco_messenger.Call.Outgoing.{current}
use nuco_messenger.Call.State.{ActiveCall, Config, Controller, Effect, send_signal, write_row}
use nuco_messenger.Call.Teardown.{
  clear_timers, close_of, completed_row, finish, remember, row_for, send_end, teardown,
}
use nuco_messenger.Call.Types.{
  EndReason, Row, Status, UiEndReason, active, canceled, canceled_marker, connecting, decline,
  declined, declined_call, ended, hangup, hung_up, incoming_ringing, missed_call, outgoing_ringing,
  reconnecting, starting,
}
use nuco_messenger.Prelude.{List, Option, ap, arith, false, none, refl, some, ℕ, ◌∙◌, ◌∷◌, ◌≡◌}

abbrev told_signal : LockTask → List Effect → List Effect
told_signal task es = elim task.end_signal [
  | none ↦ es
  | some why ↦ send_signal task.call.contact.handle (hung_up task.call.call_id why) ∷ es
]

abbrev told_row : Option Row → List Effect → List Effect
told_row none es = es
told_row (some row) es = write_row row ∷ es

-- What a lock task tells: first its signal, then its row.
abbrev pub told_of : LockTask → List Effect → List Effect
told_of task es = told_row task.row (told_signal task es)

pub told-teardown :
    (k : ActiveCall) (c : Controller) → told (set_idle (teardown k c)).trace ≡ told c.trace
unfolding set_idle teardown close_of clear_timers remember told
told-teardown k c = ground arith

told-lock_row :
    (task : LockTask) (c : Controller)
    → told (lock_row task c).trace ≡ told_row task.row (told c.trace)
unfolding lock_row told
told-lock_row task c = ground arith

told-lock_signal :
    (task : LockTask) (c : Controller)
    → told (lock_signal task c).trace ≡ told_signal task (told c.trace)
unfolding lock_signal told
told-lock_signal task c = ground arith

pub on_app_locking_live :
    (now : ℕ) (c : Controller) (k : ActiveCall)
    → c.call ≡ some k
    → let task = lock_plan now c.status k in
      on_app_locking now c ≡ lock_teardown task (lock_row task (lock_signal task c))
unfolding on_app_locking lock_task
on_app_locking_live now c k e =
    ap
      (λ (o : Option LockTask). elim o as (λ x. Controller) [
        | none ↦ c
        | some task ↦ lock_teardown task (lock_row task (lock_signal task c))
      ])
      planned
  where
    planned : lock_task now c ≡ some (lock_plan now c.status k)
    planned =
        ap
          (λ (o : Option ActiveCall). elim o as (λ x. Option LockTask) [
            | none ↦ none
            | some j ↦ some (lock_plan now c.status j)
          ])
          e

told-lock :
    (task : LockTask) (c : Controller)
    → told (lock_teardown task (lock_row task (lock_signal task c))).trace
      ≡ told_of task (told c.trace)
unfolding lock_teardown
told-lock task c =
    told-teardown
      (captured task.call (current task.call.ref (lock_row task (lock_signal task c)).call))
      (lock_row task (lock_signal task c))
    ∙ told-lock_row task (lock_signal task c)
    ∙ ap (told_row task.row) (told-lock_signal task c)

pub told-on_app_locking :
    (now : ℕ) (c : Controller) (k : ActiveCall)
    → c.call ≡ some k
    → told (on_app_locking now c).trace ≡ told_of (lock_plan now c.status k) (told c.trace)
told-on_app_locking now c k e =
    rw (on_app_locking_live now c k e) (told-lock (lock_plan now c.status k) c)

told-finish-told :
    (cfg : Config) (r : UiEndReason) (row : Row) (why : EndReason) (k : ActiveCall) (c : Controller)
    → c.call ≡ some k
    → told (finish cfg r (some row) (send_end why c)).trace
      ≡ write_row row ∷ send_signal k.contact.handle (hung_up k.call_id why) ∷ told c.trace
unfolding finish send_end told close_of
told-finish-told cfg r row why k c e = ground arith

told-finish-none :
    (cfg : Config) (r : UiEndReason) (c : Controller)
    → told (finish cfg r none c).trace ≡ told c.trace
unfolding finish told
told-finish-none cfg r c = ground arith

pub told-hang_up_in :
    (cfg : Config) (now : ℕ) (s : Status) (c : Controller) (k : ActiveCall)
    → c.call ≡ some k
    → told (hang_up_in cfg now s k c).trace ≡ told_of (lock_plan now s k) (told c.trace)
unfolding hang_up_in lock_plan
told-hang_up_in cfg now starting c k e = ground (
  arith,
  told-finish-told cfg canceled (row_for k missed_call (some canceled_marker) false) hangup k c e,
  told-finish-none cfg canceled c,
)
told-hang_up_in cfg now outgoing_ringing c k e =
    told-finish-told cfg canceled (row_for k missed_call (some canceled_marker) false) hangup k c e
told-hang_up_in cfg now incoming_ringing c k e =
    told-finish-told cfg declined (row_for k declined_call none false) decline k c e
told-hang_up_in cfg now connecting c k e = ground (
  arith,
  told-finish-told cfg canceled (row_for k missed_call (some canceled_marker) false) hangup k c e,
  told-finish-told cfg canceled (row_for k declined_call none false) hangup k c e,
)
told-hang_up_in cfg now active c k e = told-finish-told cfg ended (completed_row k now) hangup k c e
told-hang_up_in cfg now reconnecting c k e =
    told-finish-told cfg ended (completed_row k now) hangup k c e
told-hang_up_in cfg now _ c k e = refl
