-- ===== src/Call/Laws/Rest.antt =====
-- The controller of src/calls/controller.ts seen from outside: what is pending in each status.
use nuco_messenger.Call.Incoming.{
  answer_sdp, answer_sdp_body, answer_sent, answer_sent_body, answer_turn, answer_turn_body,
  callee_ring_fires, connect_fires, lose,
}
use nuco_messenger.Call.Invariant.{IsValid, is_live}
use nuco_messenger.Call.Invariant.Histories.{step-IsValid}
use nuco_messenger.Call.Machine.{
  Event, connect_window_ends, engine_settled, grace_ends, linger_ends, ring_fires, send_settled,
  step, turn_settled,
}
use nuco_messenger.Call.Media.{disconnect_fires, drop_active}
use nuco_messenger.Call.Outgoing.{
  caller_ring_fires, other_failure, place_sdp, place_sdp_body, place_sent, place_sent_body,
  place_turn, place_turn_body,
}
use nuco_messenger.Call.State.{
  ActiveCall, Await, Config, Controller, engine_sdp, nothing, signal_sent, turn_credentials,
}
use nuco_messenger.Call.Teardown.{finish, linger_fires, send_end}
use nuco_messenger.Call.Types.{
  EndReason, Row, Status, UiEndReason, active, connecting, ending, idle, reconnecting, starting,
}
use nuco_messenger.Prelude.{Bool, Option, String, arith, false, is_some, none, some, true, ℕ, ◌≡◌}

-- A promise that the live call awaits, or a timer that runs.
abbrev Awaits : Await → ℕ → Option ActiveCall → Type 0
Awaits a ref none = ⊥
Awaits a ref (some k) = (k.ref ≡ ref) × (k.awaiting ≡ a)

abbrev pub IsPending : Event → Controller → Type 0
IsPending (turn_settled ref _) c = Awaits turn_credentials ref c.call
IsPending (engine_settled ref _) c = Awaits engine_sdp ref c.call
IsPending (send_settled ref _) c = Awaits signal_sent ref c.call
IsPending ring_fires c = is_some c.ring_timer ≡ true
IsPending connect_window_ends c = is_some c.connect_timer ≡ true
IsPending grace_ends c = is_some c.disconnect_timer ≡ true
IsPending linger_ends c = is_some c.linger_timer ≡ true
IsPending _ c = ⊥

-- The event that comes when the other side and the network stay silent.
failing : ActiveCall → Event
failing k = elim k.awaiting [
  | nothing ↦ connect_window_ends
  | turn_credentials ↦ turn_settled k.ref false
  | engine_sdp ↦ engine_settled k.ref other_failure
  | signal_sent ↦ send_settled k.ref false
]

silence_in : Status → Option ActiveCall → Event
unfolding failing
silence_in starting (some k) = failing k
silence_in connecting (some k) = failing k
silence_in reconnecting _ = grace_ends
silence_in ending _ = linger_ends
silence_in _ _ = ring_fires

pub silence : Controller → Event
unfolding silence_in
silence c = silence_in c.status c.call

abbrev pub is_waiting : Status → Bool
is_waiting idle = false
is_waiting active = false
is_waiting _ = true

abbrev pub next_status : Status → Status
next_status ending = idle
next_status _ = ending

silence-IsPending :
    (c : Controller) → IsValid c → is_waiting c.status ≡ true → IsPending (silence c) c
unfolding silence
silence-IsPending c v w = ground arith

finish-status :
    (cfg : Config) (r : UiEndReason) (row : Option Row) (why : EndReason) (k : ActiveCall)
    (c : Controller)
    → c.call ≡ some k
    → ((finish cfg r row c).status ≡ ending) × ((finish cfg r row (send_end why c)).status ≡ ending)
unfolding finish send_end
finish-status cfg r row why k c e = ground arith

module _ (cfg : Config) (wins : String → String → Bool) (now : ℕ) where
  silence-step :
      (c : Controller)
      → IsValid c
      → is_waiting c.status ≡ true
      → (step cfg wins now (silence c) c).status ≡ next_status c.status
  unfolding step silence place_turn answer_turn place_sdp answer_sdp place_sent answer_sent
      place_turn_body answer_turn_body place_sdp_body answer_sdp_body place_sent_body
      answer_sent_body lose finish send_end caller_ring_fires callee_ring_fires connect_fires
      disconnect_fires linger_fires drop_active
  silence-step c v w = ground arith

  -- A controller that meets the invariant and is neither idle nor in an active call has a pending
  -- event, a promise that its call awaits or a timer that runs, and if that fails or fires with no
  -- word from the peer the call is at its end; from the end view the linger timer leads to idle. So
  -- two such events bring every such controller to rest.
  pub comes_to_rest :
      (c : Controller)
      → IsValid c
      → is_waiting c.status ≡ true
      → let d = step cfg wins now (silence c) c in
        IsPending (silence c) c
        × (d.status ≡ next_status c.status)
        × (is_live c.status ≡ true
            → IsPending (silence d) d × ((step cfg wins now (silence d) d).status ≡ idle))
  comes_to_rest c v w = (silence-IsPending c v w, silence-step c v w, second)
    where
      d : Controller
      d = step cfg wins now (silence c) c

      d-IsValid : IsValid d
      d-IsValid = step-IsValid cfg wins now (silence c) c v

      at_end : is_live c.status ≡ true → d.status ≡ ending
      at_end l = ground (arith, silence-step c v w)

      second :
          is_live c.status ≡ true
          → IsPending (silence d) d × ((step cfg wins now (silence d) d).status ≡ idle)
      second l = (
        silence-IsPending d d-IsValid (ground (arith, at_end l)),
        ground (arith, at_end l, silence-step d d-IsValid),
      )
