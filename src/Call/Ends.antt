-- ===== src/Call/Ends.antt =====
-- src/calls/controller.ts: `handleEnd`, the dispatch `handleCallSignal`, and `onAppLocking`.
use nuco_messenger.Call.Outgoing.{current}
use nuco_messenger.Call.Signals.{handle_accepted, handle_answer, handle_offer, missed_offer}
use nuco_messenger.Call.State.{ActiveCall, Config, Controller, emit, log, send_signal, write_row}
use nuco_messenger.Call.Teardown.{completed_row, finish, remember, row_for, teardown}
use nuco_messenger.Call.Types.{
  CallSignal, Contact, Direction, EndReason, Row, Status, accept, active, answered, busy_elsewhere,
  busy_marker, canceled_marker, connecting, decline, declined, declined_call, ended, error_marker,
  hangup, hung_up, idle, incoming, incoming_ringing, missed_call, offer, outgoing, outgoing_ringing,
  peer_busy, reconnecting, starting, timeout,
}
use nuco_messenger.Prelude.{
  Bool, Option, String, false, if◌then◌else◌, none, some, str_eq, true, ℕ, ◌&&◌,
}
use nuco_messenger.Prelude.Keys.{has}

-- The caller's side learns why its ringing call ended.
unfoldable pub end_of_ringing : Config → EndReason → ActiveCall → Controller → Controller
end_of_ringing cfg decline k c = finish cfg declined (some (row_for k declined_call none false)) c
end_of_ringing cfg busy_elsewhere k c =
    finish cfg peer_busy (some (row_for k missed_call (some busy_marker) false)) c
end_of_ringing cfg _ k c = finish cfg ended (some (row_for k missed_call none false)) c

unfoldable pub end_of_live : Config → ℕ → EndReason → Status → ActiveCall → Controller → Controller
unfolding end_of_ringing
end_of_live cfg now reason incoming_ringing k c =
    finish cfg ended (some (row_for k missed_call none true)) c
end_of_live cfg now reason outgoing_ringing k c = end_of_ringing cfg reason k c
end_of_live cfg now reason connecting k c =
    finish cfg ended (some (row_for k missed_call (some error_marker) false)) c
end_of_live cfg now reason active k c = finish cfg ended (some (completed_row k now)) c
end_of_live cfg now reason reconnecting k c = finish cfg ended (some (completed_row k now)) c
end_of_live cfg now reason _ k c = c

abbrev pub tells_missed : EndReason → Bool
tells_missed hangup = true
tells_missed timeout = true
tells_missed _ = false

-- An end marker for a call that is not live here.
unfoldable pub end_of_other : Contact → String → EndReason → Controller → Controller
unfolding remember
end_of_other from call_id reason c =
    if has call_id c.recently_ended
    then c
    else if tells_missed reason
    then log (write_row (missed_offer from call_id)) (remember call_id c)
    else remember call_id c

-- `handleEnd`.
unfoldable pub handle_end : Config → ℕ → Contact → String → EndReason → Controller → Controller
unfolding end_of_live end_of_other
handle_end cfg now from call_id reason c = elim c.call [
  | none ↦ end_of_other from call_id reason c
  | some k ↦
      if str_eq k.call_id call_id && str_eq k.contact.handle from.handle
      then end_of_live cfg now reason c.status k c
      else end_of_other from call_id reason c
]

-- `handleCallSignal`. The dependencies that could throw are promises, which the handlers catch.
unfoldable pub handle_call_signal :
    Config → (String → String → Bool) → ℕ → Contact → CallSignal → ℕ → Controller → Controller
unfolding handle_offer handle_accepted handle_answer handle_end
handle_call_signal cfg wins now from (offer id sdp) sent_at c =
    handle_offer cfg wins now from id sdp sent_at c
handle_call_signal cfg wins now from (accept id) sent_at c = handle_accepted cfg from id c
handle_call_signal cfg wins now from (answered id sdp) sent_at c = handle_answer cfg from id sdp c
handle_call_signal cfg wins now from (hung_up id reason) sent_at c =
    handle_end cfg now from id reason c

-- What `onAppLocking` holds on to across its awaits.
pub record LockTask : Type 0 where
  pub call : ActiveCall
  pub end_signal : Option EndReason
  pub row : Option Row

unfoldable pub lock_plan_connecting : Direction → ActiveCall → LockTask
lock_plan_connecting outgoing k = record {
  call = k;
  end_signal = some hangup;
  row = some (row_for k missed_call (some canceled_marker) false);
}
lock_plan_connecting incoming k = record {
  call = k;
  end_signal = some hangup;
  row = some (row_for k declined_call none false);
}

unfoldable pub lock_plan : ℕ → Status → ActiveCall → LockTask
unfolding lock_plan_connecting
lock_plan now starting k =
    if k.offer_send_started
    then lock_plan_connecting outgoing k
    else record { call = k; end_signal = none; row = none }
lock_plan now outgoing_ringing k = lock_plan_connecting outgoing k
lock_plan now incoming_ringing k = record {
  call = k;
  end_signal = some decline;
  row = some (row_for k declined_call none false);
}
lock_plan now connecting k = lock_plan_connecting k.direction k
lock_plan now active k = record {
  call = k;
  end_signal = some hangup;
  row = some (completed_row k now);
}
lock_plan now reconnecting k = record {
  call = k;
  end_signal = some hangup;
  row = some (completed_row k now);
}
lock_plan now _ k = record { call = k; end_signal = none; row = none }

-- The part of `onAppLocking` before its first await chooses the signal and the row.
unfoldable pub lock_task : ℕ → Controller → Option LockTask
unfolding lock_plan
lock_task now c = elim c.call [ none ↦ none | some k ↦ some (lock_plan now c.status k) ]

-- It sends the signal, and waits for it for at most two seconds.
unfoldable pub lock_signal : LockTask → Controller → Controller
lock_signal task c = elim task.end_signal [
  | none ↦ c
  | some reason ↦ log (send_signal task.call.contact.handle (hung_up task.call.call_id reason)) c
]

-- Then it writes the row, and waits for that.
unfoldable pub lock_row : LockTask → Controller → Controller
lock_row task c = elim task.row [ none ↦ c | some row ↦ log (write_row row) c ]

-- The call object that was captured, as it is now: it may have changed while it was live.
unfoldable pub captured : ActiveCall → Option ActiveCall → ActiveCall
captured k none = k
captured k (some live) = live

unfoldable pub set_idle : Controller → Controller
unfolding emit
set_idle c = emit (record c { status = idle; end_reason = none; ending_view = none })

-- Then it tears the captured call down, whichever call is live by now.
unfoldable pub lock_teardown : LockTask → Controller → Controller
unfolding set_idle
lock_teardown task c = set_idle (teardown (captured task.call (current task.call.ref c.call)) c)

-- `onAppLocking` when nothing else happens during its awaits.
unfoldable pub on_app_locking : ℕ → Controller → Controller
unfolding lock_task lock_signal lock_row lock_teardown
on_app_locking now c = elim (lock_task now c) [
  | none ↦ c
  | some task ↦ lock_teardown task (lock_row task (lock_signal task c))
]
