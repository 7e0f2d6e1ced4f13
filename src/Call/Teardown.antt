-- ===== src/Call/Teardown.antt =====
-- src/calls/controller.ts, "teardown and rows": how a call ends, and what is remembered of it.
use nuco_messenger.Prelude.{
  ℕ, ◌+◌, ◌-◌, ◌/◌, String, Bool, true, false, Option, none, some, List, [], ◌∷◌, ltb, ◌==◌,
  if◌then◌else◌, length,
}
use nuco_messenger.Prelude.Keys.{add, delete}
use nuco_messenger.Call.Types.{
  Direction, incoming, outgoing, Status, idle, ending, UiEndReason, EndReason, hung_up, RowKind,
  outgoing_call, incoming_call, RowBody, seconds, Row,
}
use nuco_messenger.Call.State.{
  Config, ActiveCall, Controller, linger, send_signal, write_row, stop_incoming_ring,
  stop_call_audio, close_engine, recent_call_ids_max, log, set_status, arm_linger, clear_ring,
  clear_connect, clear_disconnect,
}

-- `rowFor` of the live call `k`.
unfoldable pub row_for : ActiveCall → RowKind → Option RowBody → Bool → Row
row_for k kind body unread = record {
  call_id = k.call_id;
  contact_id = k.contact.id;
  kind = kind;
  direction = k.direction;
  body = body;
  unread = unread;
}

-- `Math.round` of the milliseconds since then; a missing or zero `activeSince` counts as 0 seconds.
duration : Option ℕ → ℕ → ℕ
duration none now = 0
duration (some since) now = if since == 0 then 0 else (now - since + 500) / 1000

completed_kind : Direction → RowKind
completed_kind outgoing = outgoing_call
completed_kind incoming = incoming_call

-- `completedRow`.
unfoldable pub completed_row : ActiveCall → ℕ → Row
unfolding row_for completed_kind duration
completed_row k now =
    row_for k (completed_kind k.direction) (some (seconds (duration k.active_since now))) false

-- `sendEnd`.
unfoldable pub send_end : EndReason → Controller → Controller
send_end reason c = elim c.call [
  | none ↦ c
  | some k ↦ log (send_signal k.contact.handle (hung_up k.call_id reason)) c
]

-- Drops the oldest key of a set that has grown past the limit.
unfoldable pub trim : List String → List String
trim [] = []
trim (oldest ∷ rest) =
    if ltb recent_call_ids_max (length (oldest ∷ rest))
    then delete oldest (oldest ∷ rest)
    else oldest ∷ rest

unfoldable pub remember : String → Controller → Controller
unfolding trim
remember id c = record c { recently_ended = trim (add id (delete id c.recently_ended)) }

unfoldable pub clear_timers : Controller → Controller
clear_timers c = clear_disconnect (clear_connect (clear_ring c))

unfoldable pub close_of : ActiveCall → Controller → Controller
close_of k c = if k.engine then log (close_engine k.ref) c else c

-- `teardown(call)`.
unfoldable pub teardown : ActiveCall → Controller → Controller
unfolding clear_timers close_of remember
teardown k c =
    let silent = log stop_call_audio (log stop_incoming_ring (clear_timers c)) in
    record (remember k.call_id (close_of k silent)) { call = none }

abbrev write_opt : Option Row → Controller → Controller
write_opt none c = c
write_opt (some row) c = log (write_row row) c

finish_call : Config → UiEndReason → Option Row → ActiveCall → Controller → Controller
unfolding teardown set_status arm_linger
finish_call cfg reason row k c =
    let shown = record (write_opt row c) {
      ending_view = some (record {
        contact_id = k.contact.id;
        contact_name = k.contact.display_name;
        direction = k.direction;
      });
    } in
    let down = record (teardown k shown) { end_reason = some reason } in
    arm_linger (record { kind = linger; ref = k.ref; delay_ms = cfg.ended_linger_ms })
      (set_status ending down)

-- `finish(reason, row)`.
unfoldable pub finish : Config → UiEndReason → Option Row → Controller → Controller
unfolding finish_call
finish cfg reason row c = elim c.call [ none ↦ c | some k ↦ finish_call cfg reason row k c ]

is_ending : Status → Bool
is_ending ending = true
is_ending _ = false

-- `clearLinger`.
unfoldable pub clear_linger : Controller → Controller
unfolding is_ending
clear_linger c = record c {
  linger_timer = none;
  ending_view = none;
  end_reason = if is_ending c.status then none else c.end_reason;
}

-- The callback of the linger timer.
unfoldable pub linger_fires : Controller → Controller
unfolding is_ending set_status
linger_fires c =
    let fired = record c { linger_timer = none } in
    if is_ending c.status
    then set_status idle (record fired { end_reason = none; ending_view = none })
    else fired
