-- ===== src/Call/Invariant/Starting.antt =====
-- The invariant of Call.Invariant and `placeCall` of src/calls/controller.ts, cut at its awaits.
use nuco_messenger.Call.Invariant.{IsValid}
use nuco_messenger.Call.Invariant.Ending.{finish-IsValid, send_end-IsValid}
use nuco_messenger.Call.Outgoing.{
  EngineResult, mic_unavailable, no_relay_candidates, other_failure, place_call, place_sdp,
  place_sdp_body, place_sent, place_sent_body, place_turn, place_turn_body, produced,
  with_current_rule,
}
use nuco_messenger.Call.State.{
  ActiveCall, Config, Controller, engine_sdp, signal_sent, turn_credentials,
}
use nuco_messenger.Call.Teardown.{send_end}
use nuco_messenger.Call.Types.{
  Availability, Contact, available, failed, hangup, mic_failed, no_turn, outgoing,
}
use nuco_messenger.Prelude.{Bool, String, arith, false, none, some, true, ◌≡◌}

pub place_call-IsValid :
    (a : Availability) (who : Contact) (id : String) (c : Controller)
    → IsValid c
    → IsValid (place_call a who id c).1
unfolding place_call
place_call-IsValid available who id c v = ground arith
place_call-IsValid _ who id c v = v

module _ (cfg : Config) (k : ActiveCall) (c : Controller) (e : c.call ≡ some k)
    (v : IsValid c) where
  place_turn_body-IsValid :
      (got : Bool)
      → k.awaiting ≡ turn_credentials
      → k.direction ≡ outgoing
      → IsValid (place_turn_body cfg got k c)
  unfolding place_turn_body
  place_turn_body-IsValid false a d = finish-IsValid cfg no_turn none c v
  place_turn_body-IsValid true a d = ground arith

  place_sdp_body-IsValid :
      (r : EngineResult)
      → k.awaiting ≡ engine_sdp
      → k.direction ≡ outgoing
      → IsValid (place_sdp_body cfg r k c)
  unfolding place_sdp_body
  place_sdp_body-IsValid mic_unavailable a d = finish-IsValid cfg mic_failed none c v
  place_sdp_body-IsValid no_relay_candidates a d = finish-IsValid cfg no_turn none c v
  place_sdp_body-IsValid other_failure a d = finish-IsValid cfg failed none c v
  place_sdp_body-IsValid (produced s) a d = ground arith

  place_sent_body-IsValid :
      (sent : Bool)
      → k.awaiting ≡ signal_sent
      → k.direction ≡ outgoing
      → IsValid (place_sent_body cfg sent k c)
  unfolding place_sent_body
  place_sent_body-IsValid false a d =
      finish-IsValid cfg failed none (send_end hangup c) (send_end-IsValid hangup c v)
  place_sent_body-IsValid true a d = ground arith

pub place_turn-IsValid :
    (cfg : Config) (k : ActiveCall) (c : Controller)
    → c.call ≡ some k
    → IsValid c
    → (got : Bool) → k.awaiting ≡ turn_credentials
    → k.direction ≡ outgoing
    → IsValid (place_turn cfg k.ref got c)
unfolding place_turn
place_turn-IsValid cfg k c e v got a d =
    with_current_rule IsValid k.ref (place_turn_body cfg got) c v
      λ j f r. place_turn_body-IsValid cfg j c f v got (ground arith) (ground arith)

pub place_sdp-IsValid :
    (cfg : Config) (k : ActiveCall) (c : Controller)
    → c.call ≡ some k
    → IsValid c
    → (r : EngineResult) → k.awaiting ≡ engine_sdp
    → k.direction ≡ outgoing
    → IsValid (place_sdp cfg k.ref r c)
unfolding place_sdp
place_sdp-IsValid cfg k c e v result a d =
    with_current_rule IsValid k.ref (place_sdp_body cfg result) c v
      λ j f r. place_sdp_body-IsValid cfg j c f v result (ground arith) (ground arith)

pub place_sent-IsValid :
    (cfg : Config) (k : ActiveCall) (c : Controller)
    → c.call ≡ some k
    → IsValid c
    → (sent : Bool) → k.awaiting ≡ signal_sent
    → k.direction ≡ outgoing
    → IsValid (place_sent cfg k.ref sent c)
unfolding place_sent
place_sent-IsValid cfg k c e v sent a d =
    with_current_rule IsValid k.ref (place_sent_body cfg sent) c v
      λ j f r. place_sent_body-IsValid cfg j c f v sent (ground arith) (ground arith)
