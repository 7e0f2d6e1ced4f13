-- ===== src/Call/Incoming.antt =====
-- src/calls/controller.ts: `answer` cut at its awaits, `decline`, `hangUp`, and the two toggles.
use nuco_messenger.Call.Outgoing.{
  EngineResult, mic_unavailable, no_relay_candidates, other_failure, produced, put_call,
  with_current,
}
use nuco_messenger.Call.State.{
  ActiveCall, Config, Controller, arm_connect, audio_speaker, clear_connect, clear_ring,
  connect_window, create_engine, emit, engine_muted, engine_sdp, log, nothing, send_signal,
  set_status, signal_sent, stop_incoming_ring, turn_credentials,
}
use nuco_messenger.Call.Teardown.{completed_row, finish, row_for, send_end}
use nuco_messenger.Call.Types.{
  Direction, Status, UiEndReason, accept, active, answered, canceled, canceled_marker, connecting,
  connection_lost, decline, declined, declined_call, ended, error, error_marker, failed, hangup,
  incoming, incoming_ringing, mic_failed, missed_call, no_turn, outgoing, outgoing_ringing,
  reconnecting, starting,
}
use nuco_messenger.Prelude.{Bool, false, if◌then◌else◌, none, some, true, ℕ}

abbrev pub is_incoming_ringing : Status → Bool
is_incoming_ringing incoming_ringing = true
is_incoming_ringing _ = false

abbrev pub is_connecting : Status → Bool
is_connecting connecting = true
is_connecting _ = false

-- `startConnectTimer(call)`.
unfoldable pub start_connect_timer : Config → ActiveCall → Controller → Controller
unfolding arm_connect
start_connect_timer cfg k c =
    arm_connect (record { kind = connect_window; ref = k.ref; delay_ms = cfg.connect_timeout_ms })
      (clear_connect c)

-- The end of a call that failed on this side: the peer is told, and the call counts as missed.
unfoldable pub lose : Config → UiEndReason → ActiveCall → Controller → Controller
lose cfg reason k c =
    finish cfg reason (some (row_for k missed_call (some error_marker) false)) (send_end error c)

-- The callback of the connect timer.
unfoldable pub connect_fires : Config → ℕ → Controller → Controller
unfolding lose
connect_fires cfg ref c =
    with_current ref (λ k d. if is_connecting d.status then lose cfg connection_lost k d else d)
      (record c { connect_timer = none })

-- `answer`, up to the await of the TURN credentials, once its guard has passed.
unfoldable pub answer_call : ActiveCall → Controller → Controller
unfolding set_status
answer_call k c = log (send_signal k.contact.handle (accept k.call_id)) (
    set_status connecting
      (clear_ring (log stop_incoming_ring (put_call (record k { awaiting = turn_credentials }) c))))

unfoldable pub answer_guarded : Direction → Status → ActiveCall → Controller → Controller
unfolding answer_call
answer_guarded incoming incoming_ringing k c = answer_call k c
answer_guarded _ _ k c = c

unfoldable pub answer : Controller → Controller
unfolding answer_guarded
answer c = elim c.call [ none ↦ c | some k ↦ answer_guarded k.direction c.status k c ]

unfoldable pub answer_turn_body : Config → Bool → ActiveCall → Controller → Controller
unfolding lose
answer_turn_body cfg false k c = lose cfg no_turn k c
answer_turn_body cfg true k c =
    log (create_engine k.ref) (put_call (record k { engine = true; awaiting = engine_sdp }) c)

unfoldable pub answer_turn : Config → ℕ → Bool → Controller → Controller
unfolding answer_turn_body
answer_turn cfg ref got = with_current ref (answer_turn_body cfg got)

unfoldable pub answer_sdp_body : Config → EngineResult → ActiveCall → Controller → Controller
unfolding lose
answer_sdp_body cfg mic_unavailable k c = lose cfg mic_failed k c
answer_sdp_body cfg no_relay_candidates k c = lose cfg no_turn k c
answer_sdp_body cfg other_failure k c = lose cfg failed k c
answer_sdp_body cfg (produced s) k c =
    log (send_signal k.contact.handle (answered k.call_id s))
      (put_call (record k { awaiting = signal_sent }) c)

unfoldable pub answer_sdp : Config → ℕ → EngineResult → Controller → Controller
unfolding answer_sdp_body
answer_sdp cfg ref result = with_current ref (answer_sdp_body cfg result)

unfoldable pub answer_sent_body : Config → Bool → ActiveCall → Controller → Controller
unfolding lose start_connect_timer
answer_sent_body cfg false k c = lose cfg failed k c
answer_sent_body cfg true k c =
    start_connect_timer cfg k (put_call (record k { awaiting = nothing }) c)

unfoldable pub answer_sent : Config → ℕ → Bool → Controller → Controller
unfolding answer_sent_body
answer_sent cfg ref sent = with_current ref (answer_sent_body cfg sent)

-- The callback of the ring timer that `adoptIncoming` sets.
unfoldable pub callee_ring_fires : Config → ℕ → Controller → Controller
callee_ring_fires cfg ref c =
    with_current ref
      (λ k d.
        if is_incoming_ringing d.status
        then finish cfg ended (some (row_for k missed_call none true)) d
        else d)
      (record c { ring_timer = none })

unfoldable pub refuse : Config → ActiveCall → Controller → Controller
refuse cfg k c =
    finish cfg declined (some (row_for k declined_call none false)) (send_end decline c)

-- `decline`.
unfoldable pub decline_call : Config → Controller → Controller
unfolding refuse
decline_call cfg c = elim c.call [
  | none ↦ c
  | some k ↦ if is_incoming_ringing c.status then refuse cfg k c else c
]

unfoldable pub cancel : Config → ActiveCall → Controller → Controller
cancel cfg k c =
    finish cfg canceled (some (row_for k missed_call (some canceled_marker) false))
      (send_end hangup c)

unfoldable pub give_up_connecting : Config → Direction → ActiveCall → Controller → Controller
unfolding cancel
give_up_connecting cfg outgoing k c = cancel cfg k c
give_up_connecting cfg incoming k c =
    finish cfg canceled (some (row_for k declined_call none false)) (send_end hangup c)

unfoldable pub end_active : Config → ℕ → ActiveCall → Controller → Controller
end_active cfg now k c = finish cfg ended (some (completed_row k now)) (send_end hangup c)

unfoldable pub hang_up_in : Config → ℕ → Status → ActiveCall → Controller → Controller
unfolding refuse cancel give_up_connecting end_active
hang_up_in cfg now starting k c =
    if k.offer_send_started then cancel cfg k c else finish cfg canceled none c
hang_up_in cfg now outgoing_ringing k c = cancel cfg k c
hang_up_in cfg now incoming_ringing k c = refuse cfg k c
hang_up_in cfg now connecting k c = give_up_connecting cfg k.direction k c
hang_up_in cfg now active k c = end_active cfg now k c
hang_up_in cfg now reconnecting k c = end_active cfg now k c
hang_up_in cfg now _ k c = c

-- `hangUp`.
unfoldable pub hang_up : Config → ℕ → Controller → Controller
unfolding hang_up_in
hang_up cfg now c = elim c.call [ none ↦ c | some k ↦ hang_up_in cfg now c.status k c ]

unfoldable pub mute_engine : Bool → ActiveCall → Controller → Controller
unfolding emit
mute_engine muted k c =
    emit (put_call (record k { muted = muted }) (log (engine_muted k.ref muted) c))

-- `setMuted`.
unfoldable pub set_muted : Bool → Controller → Controller
unfolding mute_engine
set_muted muted c = elim c.call [
  | none ↦ c
  | some k ↦ if k.engine then mute_engine muted k c else c
]

-- `setSpeaker`.
unfoldable pub set_speaker : Bool → Controller → Controller
unfolding emit
set_speaker on c = elim c.call [
  | none ↦ c
  | some k ↦ emit (put_call (record k { speaker = on }) (log (audio_speaker on) c))
]
