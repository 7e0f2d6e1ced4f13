-- ===== src/Call/Signals.antt =====
-- src/calls/controller.ts: the handlers of the inbound signals. `wins` is the protocol package's
-- `callOfferWins`, which decides a glare; the clocks are in milliseconds.
use nuco_messenger.Call.Incoming.{answer, is_connecting, lose, start_connect_timer}
use nuco_messenger.Call.Outgoing.{is_outgoing_ringing, open_call, put_call, with_current}
use nuco_messenger.Call.State.{
  ActiveCall, Config, Controller, accept_answer_sdp, arm_ring, callee_ring, clear_ring, log,
  nothing, send_signal, set_status, start_incoming_ring, write_row,
}
use nuco_messenger.Call.Teardown.{clear_linger, clear_timers, close_of, remember}
use nuco_messenger.Call.Types.{
  Contact, Direction, Row, Status, busy_elsewhere, connecting, connection_lost, hung_up, incoming,
  incoming_ringing, missed_call, outgoing, starting,
}
use nuco_messenger.Prelude.{
  Bool, String, false, if◌then◌else◌, leb, none, not, some, str_eq, true, ℕ, ◌&&◌, ◌+◌, ◌||◌,
}
use nuco_messenger.Prelude.Keys.{has}

-- The missed row for an offer that never became this side's call.
abbrev pub missed_offer : Contact → String → Row
missed_offer from call_id = record {
  call_id = call_id;
  contact_id = from.id;
  kind = missed_call;
  direction = incoming;
  body = none;
  unread = true;
}

-- `adoptIncoming`.
unfoldable pub adopt_incoming : Config → Contact → String → String → Bool → Controller → Controller
unfolding open_call clear_linger set_status arm_ring answer
adopt_incoming cfg from call_id sdp auto_answer c =
    let opened = open_call call_id from incoming (some sdp) nothing c in
    let ringing =
      arm_ring (record { kind = callee_ring; ref = c.next_ref; delay_ms = cfg.ring_timeout_ms })
        (set_status incoming_ringing (clear_linger opened)) in
    if auto_answer then answer ringing else log start_incoming_ring ringing

abbrev is_outgoing : Direction → Bool
is_outgoing outgoing = true
is_outgoing incoming = false

abbrev is_starting : Status → Bool
is_starting starting = true
is_starting _ = false

-- Both sides called each other.
unfoldable pub glare_eligible : ActiveCall → Contact → Status → Bool
glare_eligible k from status =
    str_eq k.contact.handle from.handle
    && is_outgoing k.direction
    && (is_outgoing_ringing status || is_starting status)

-- This side's offer loses: it is dropped with no signal, and theirs is answered.
unfoldable pub yield_to : Config → ActiveCall → Contact → String → String → Controller → Controller
unfolding clear_timers close_of remember adopt_incoming
yield_to cfg k from call_id sdp c =
    let dropped = record (remember k.call_id (close_of k (clear_timers c))) { call = none } in
    adopt_incoming cfg from call_id sdp true dropped

-- Another call is in progress.
unfoldable pub decline_busy : ActiveCall → Contact → String → Controller → Controller
unfolding remember
decline_busy k from call_id c =
    let told =
      log (send_signal from.handle (hung_up call_id busy_elsewhere)) (remember call_id c) in
    if str_eq k.contact.handle from.handle
    then told
    else log (write_row (missed_offer from call_id)) told

unfoldable pub offer_in_call :
    Config
    → (String → String → Bool)
    → ActiveCall
    → Contact
    → String
    → String
    → Controller
    → Controller
unfolding glare_eligible yield_to decline_busy remember
offer_in_call cfg wins k from call_id sdp c =
    if glare_eligible k from c.status
    then (if wins k.call_id call_id then remember call_id c else yield_to cfg k from call_id sdp c)
    else decline_busy k from call_id c

unfoldable pub offer_when_free :
    Config → ℕ → Contact → String → String → ℕ → Controller → Controller
unfolding remember adopt_incoming
offer_when_free cfg now from call_id sdp sent_at c =
    if leb (sent_at + cfg.stale_offer_ms) now
    then log (write_row (missed_offer from call_id)) (remember call_id c)
    else adopt_incoming cfg from call_id sdp false c

-- `handleOffer`.
unfoldable pub handle_offer :
    Config → (String → String → Bool) → ℕ → Contact → String → String → ℕ → Controller → Controller
unfolding offer_in_call offer_when_free
handle_offer cfg wins now from call_id sdp sent_at c =
    if has call_id c.recently_ended then c else elim c.call [
      | none ↦ offer_when_free cfg now from call_id sdp sent_at c
      | some k ↦ offer_in_call cfg wins k from call_id sdp c
    ]

-- The signal names this side's outgoing call, and comes from the peer of it.
abbrev own_offer : ActiveCall → Contact → String → Bool
own_offer k from call_id =
    is_outgoing k.direction && str_eq k.call_id call_id && str_eq k.contact.handle from.handle

-- `handleAccepted`.
unfoldable pub handle_accepted : Config → Contact → String → Controller → Controller
unfolding start_connect_timer set_status
handle_accepted cfg from call_id c = elim c.call [
  | none ↦ c
  | some k ↦
      if own_offer k from call_id && is_outgoing_ringing c.status
      then start_connect_timer cfg k (set_status connecting (clear_ring c))
      else c
]

unfoldable pub apply_answer : Config → String → ActiveCall → Controller → Controller
unfolding start_connect_timer set_status
apply_answer cfg sdp k c =
    let applied = put_call (record k { answer_applied = true }) c in
    let waiting = start_connect_timer cfg k (set_status connecting (clear_ring applied)) in
    if k.engine then log (accept_answer_sdp k.ref sdp) waiting else waiting

-- `handleAnswer`.
unfoldable pub handle_answer : Config → Contact → String → String → Controller → Controller
unfolding apply_answer
handle_answer cfg from call_id sdp c = elim c.call [
  | none ↦ c
  | some k ↦
      if own_offer k from call_id
        && not k.answer_applied
        && (is_outgoing_ringing c.status || is_connecting c.status)
      then apply_answer cfg sdp k c
      else c
]

-- The rejection handler that `handleAnswer` puts on the promise of `acceptAnswerSdp`.
unfoldable pub answer_rejected : Config → ℕ → Controller → Controller
unfolding lose
answer_rejected cfg ref = with_current ref (lose cfg connection_lost)
