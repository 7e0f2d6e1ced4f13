-- ===== src/Call/Invariant/Receiving.antt =====
-- The invariant of Call.Invariant and the inbound signals of src/calls/controller.ts.
use nuco_messenger.Call.Ends.{
  end_of_live, end_of_other, end_of_ringing, handle_call_signal, handle_end, tells_missed,
}
use nuco_messenger.Call.Invariant.{IsBounded, IsValid, is_over}
use nuco_messenger.Call.Invariant.Ending.{finish-IsValid}
use nuco_messenger.Call.Invariant.Recent.{remember-IsBounded}
use nuco_messenger.Call.Outgoing.{call_rule}
use nuco_messenger.Call.Signals.{
  adopt_incoming, decline_busy, glare_eligible, handle_accepted, handle_answer, handle_offer,
  missed_offer, offer_in_call, offer_when_free, yield_to,
}
use nuco_messenger.Call.State.{ActiveCall, Config, Controller, Effect, log, write_row}
use nuco_messenger.Call.Teardown.{clear_timers, close_of, completed_row, remember, row_for}
use nuco_messenger.Call.Types.{
  CallSignal, Contact, EndReason, Status, accept, active, answered, busy_elsewhere, busy_marker,
  connecting, decline, declined, declined_call, ended, error_marker, hung_up, incoming_ringing,
  missed_call, offer, outgoing_ringing, peer_busy, reconnecting,
}
use nuco_messenger.Prelude.{
  Bool, String, [], arith, false, if_rule, if◌then◌else◌, is_some, leb, none, some, str_eq, true, ℕ,
  ◌&&◌, ◌+◌, ◌≡◌,
}
use nuco_messenger.Prelude.Keys.{has}

-- What a controller without a call needs for a ring to begin.
record IsFree (c : Controller) : Type 0 where
  no_ring : c.ring_timer ≡ none
  no_connect : c.connect_timer ≡ none
  no_grace : c.disconnect_timer ≡ none
  no_orphans : c.orphans ≡ []
  reason_over : is_some c.end_reason ≡ is_over c.status
  recent : IsBounded c

adopt_incoming-IsValid :
    (cfg : Config) (from : Contact) (id sdp : String) (auto : Bool) (c : Controller)
    → IsFree c
    → IsValid (adopt_incoming cfg from id sdp auto c)
unfolding adopt_incoming
adopt_incoming-IsValid cfg from id sdp true c f = ground arith
adopt_incoming-IsValid cfg from id sdp false c f = ground arith

free_valid_lem : (c : Controller) → IsValid c → c.call ≡ none → IsFree c
free_valid_lem c v e = ground arith

remember-IsValid : (id : String) (c : Controller) → IsValid c → IsValid (remember id c)
unfolding remember
remember-IsValid id c v = ground (arith, remember-IsBounded id v.recent)

module _ (cfg : Config) (from : Contact) (c : Controller) (v : IsValid c) where
  dropped-IsFree :
      (k : ActiveCall)
      → c.call ≡ some k
      → IsFree (record (remember k.call_id (close_of k (clear_timers c))) { call = none })
  unfolding remember close_of clear_timers
  dropped-IsFree k e = ground (arith, remember-IsBounded k.call_id v.recent)

  yield_to-IsValid :
      (k : ActiveCall) (id sdp : String) → c.call ≡ some k → IsValid (yield_to cfg k from id sdp c)
  unfolding yield_to
  yield_to-IsValid k id sdp e = adopt_incoming-IsValid cfg from id sdp true _ (dropped-IsFree k e)

  decline_busy-IsValid : (k : ActiveCall) (id : String) → IsValid (decline_busy k from id c)
  unfolding decline_busy
  decline_busy-IsValid k id = ground (arith, remember-IsBounded id v.recent)

  offer_in_call-IsValid :
      (wins : String → String → Bool) (k : ActiveCall) (id sdp : String)
      → c.call ≡ some k
      → IsValid (offer_in_call cfg wins k from id sdp c)
  unfolding offer_in_call
  offer_in_call-IsValid wins k id sdp e =
      if_rule IsValid (glare_eligible k from c.status)
        (if_rule IsValid (wins k.call_id id) (remember-IsValid id c v)
          (yield_to-IsValid k id sdp e))
        (decline_busy-IsValid k id)

  logged-IsValid : (e : Effect) (d : Controller) → IsValid d → IsValid (log e d)
  logged-IsValid e d w = ground arith

  offer_when_free-IsValid :
      (now : ℕ) (id sdp : String) (sent_at : ℕ)
      → c.call ≡ none
      → IsValid (offer_when_free cfg now from id sdp sent_at c)
  unfolding offer_when_free
  offer_when_free-IsValid now id sdp sent_at e =
      if_rule IsValid (leb (sent_at + cfg.stale_offer_ms) now)
        (logged-IsValid (write_row (missed_offer from id)) (remember id c)
          (remember-IsValid id c v))
        (adopt_incoming-IsValid cfg from id sdp false c (free_valid_lem c v e))

  handle_offer-IsValid :
      (wins : String → String → Bool) (now : ℕ) (id sdp : String) (sent_at : ℕ)
      → IsValid (handle_offer cfg wins now from id sdp sent_at c)
  unfolding handle_offer
  handle_offer-IsValid wins now id sdp sent_at = if_rule IsValid (has id c.recently_ended) v (
      call_rule IsValid (λ k. offer_in_call cfg wins k from id sdp c) c.call
        (offer_when_free-IsValid now id sdp sent_at) λ k e. offer_in_call-IsValid wins k id sdp e)

  handle_accepted-IsValid : (id : String) → IsValid (handle_accepted cfg from id c)
  unfolding handle_accepted
  handle_accepted-IsValid id = ground arith

  handle_answer-IsValid : (id sdp : String) → IsValid (handle_answer cfg from id sdp c)
  unfolding handle_answer
  handle_answer-IsValid id sdp = ground arith

  end_of_ringing-IsValid : (why : EndReason) (k : ActiveCall) → IsValid (end_of_ringing cfg why k c)
  unfolding end_of_ringing
  end_of_ringing-IsValid decline k =
      finish-IsValid cfg declined (some (row_for k declined_call none false)) c v
  end_of_ringing-IsValid busy_elsewhere k =
      finish-IsValid cfg peer_busy (some (row_for k missed_call (some busy_marker) false)) c v
  end_of_ringing-IsValid _ k =
      finish-IsValid cfg ended (some (row_for k missed_call none false)) c v

  end_of_live-IsValid :
      (now : ℕ) (why : EndReason) (s : Status) (k : ActiveCall)
      → IsValid (end_of_live cfg now why s k c)
  unfolding end_of_live
  end_of_live-IsValid now why incoming_ringing k =
      finish-IsValid cfg ended (some (row_for k missed_call none true)) c v
  end_of_live-IsValid now why outgoing_ringing k = end_of_ringing-IsValid why k
  end_of_live-IsValid now why connecting k =
      finish-IsValid cfg ended (some (row_for k missed_call (some error_marker) false)) c v
  end_of_live-IsValid now why active k = finish-IsValid cfg ended (some (completed_row k now)) c v
  end_of_live-IsValid now why reconnecting k =
      finish-IsValid cfg ended (some (completed_row k now)) c v
  end_of_live-IsValid now why _ k = v

  end_of_other-IsValid : (id : String) (why : EndReason) → IsValid (end_of_other from id why c)
  unfolding end_of_other
  end_of_other-IsValid id why = if_rule IsValid (has id c.recently_ended) v (
      if_rule IsValid (tells_missed why)
        (logged-IsValid (write_row (missed_offer from id)) (remember id c)
          (remember-IsValid id c v))
        (remember-IsValid id c v))

  handle_end-IsValid :
      (now : ℕ) (id : String) (why : EndReason) → IsValid (handle_end cfg now from id why c)
  unfolding handle_end
  handle_end-IsValid now id why =
      call_rule IsValid
        (λ k.
          if str_eq k.call_id id && str_eq k.contact.handle from.handle
          then end_of_live cfg now why c.status k c
          else end_of_other from id why c)
        c.call (λ _. end_of_other-IsValid id why)
        λ k e.
          if_rule IsValid (str_eq k.call_id id && str_eq k.contact.handle from.handle)
            (end_of_live-IsValid now why c.status k) (end_of_other-IsValid id why)

  pub handle_call_signal-IsValid :
      (wins : String → String → Bool) (now : ℕ) (signal : CallSignal) (sent_at : ℕ)
      → IsValid (handle_call_signal cfg wins now from signal sent_at c)
  unfolding handle_call_signal
  handle_call_signal-IsValid wins now (offer id sdp) sent_at =
      handle_offer-IsValid wins now id sdp sent_at
  handle_call_signal-IsValid wins now (accept id) sent_at = handle_accepted-IsValid id
  handle_call_signal-IsValid wins now (answered id sdp) sent_at = handle_answer-IsValid id sdp
  handle_call_signal-IsValid wins now (hung_up id why) sent_at = handle_end-IsValid now id why
