-- ===== src/Call/Invariant/Answering.antt =====
-- The invariant of Call.Invariant and `answer` of src/calls/controller.ts, with the ends of its
-- promises.
use nuco_messenger.Call.Incoming.{
  answer, answer_sdp, answer_sdp_body, answer_sent, answer_sent_body, answer_turn, answer_turn_body,
  lose,
}
use nuco_messenger.Call.Invariant.{IsBounded, IsValid}
use nuco_messenger.Call.Invariant.Ending.{finish-IsValid, send_end-IsValid}
use nuco_messenger.Call.Outgoing.{
  EngineResult, mic_unavailable, no_relay_candidates, other_failure, produced, with_current_rule,
}
use nuco_messenger.Call.State.{
  ActiveCall, Config, Controller, engine_sdp, signal_sent, turn_credentials,
}
use nuco_messenger.Call.Teardown.{finish, row_for, send_end}
use nuco_messenger.Call.Types.{
  EndReason, Row, UiEndReason, error, error_marker, failed, incoming, mic_failed, missed_call,
  no_turn,
}
use nuco_messenger.Prelude.{Bool, Option, [], arith, false, none, some, true, ◌≡◌}

abbrev missed_row : ActiveCall → Option Row
missed_row k = some (row_for k missed_call (some error_marker) false)

-- In a valid controller with a live call, a loss is a proper end.
pub live_facts :
    {k : ActiveCall} {c : Controller}
    → c.call ≡ some k
    → IsValid c
    → (c.linger_timer ≡ none) × (c.orphans ≡ []) × IsBounded c
live_facts e v = ground arith

pub told-IsValid :
    (cfg : Config) (r : UiEndReason) (row : Option Row) (why : EndReason) (c : Controller)
    → IsValid c
    → IsValid (finish cfg r row (send_end why c))
told-IsValid cfg r row why c v =
    finish-IsValid cfg r row (send_end why c) (send_end-IsValid why c v)

pub lose-IsValid :
    (cfg : Config) (r : UiEndReason) (k : ActiveCall) (c : Controller)
    → IsValid c
    → IsValid (lose cfg r k c)
unfolding lose
lose-IsValid cfg r k c v = told-IsValid cfg r (missed_row k) error c v

pub answer-IsValid : (c : Controller) → IsValid c → IsValid (answer c)
unfolding answer
answer-IsValid c v = ground arith

module _ (cfg : Config) (k : ActiveCall) (c : Controller) (e : c.call ≡ some k)
    (v : IsValid c) where
  answer_turn_body-IsValid :
      (got : Bool)
      → k.awaiting ≡ turn_credentials
      → k.direction ≡ incoming
      → IsValid (answer_turn_body cfg got k c)
  unfolding answer_turn_body
  answer_turn_body-IsValid false a d = lose-IsValid cfg no_turn k c v
  answer_turn_body-IsValid true a d = ground arith

  answer_sdp_body-IsValid :
      (r : EngineResult)
      → k.awaiting ≡ engine_sdp
      → k.direction ≡ incoming
      → IsValid (answer_sdp_body cfg r k c)
  unfolding answer_sdp_body
  answer_sdp_body-IsValid mic_unavailable a d = lose-IsValid cfg mic_failed k c v
  answer_sdp_body-IsValid no_relay_candidates a d = lose-IsValid cfg no_turn k c v
  answer_sdp_body-IsValid other_failure a d = lose-IsValid cfg failed k c v
  answer_sdp_body-IsValid (produced s) a d = ground arith

  answer_sent_body-IsValid :
      (sent : Bool)
      → k.awaiting ≡ signal_sent
      → k.direction ≡ incoming
      → IsValid (answer_sent_body cfg sent k c)
  unfolding answer_sent_body
  answer_sent_body-IsValid false a d = lose-IsValid cfg failed k c v
  answer_sent_body-IsValid true a d = ground arith

pub answer_turn-IsValid :
    (cfg : Config) (k : ActiveCall) (c : Controller)
    → c.call ≡ some k
    → IsValid c
    → (got : Bool) → k.awaiting ≡ turn_credentials
    → k.direction ≡ incoming
    → IsValid (answer_turn cfg k.ref got c)
unfolding answer_turn
answer_turn-IsValid cfg k c e v got a d =
    with_current_rule IsValid k.ref (answer_turn_body cfg got) c v
      λ j f r. answer_turn_body-IsValid cfg j c f v got (ground arith) (ground arith)

pub answer_sdp-IsValid :
    (cfg : Config) (k : ActiveCall) (c : Controller)
    → c.call ≡ some k
    → IsValid c
    → (r : EngineResult) → k.awaiting ≡ engine_sdp
    → k.direction ≡ incoming
    → IsValid (answer_sdp cfg k.ref r c)
unfolding answer_sdp
answer_sdp-IsValid cfg k c e v result a d =
    with_current_rule IsValid k.ref (answer_sdp_body cfg result) c v
      λ j f r. answer_sdp_body-IsValid cfg j c f v result (ground arith) (ground arith)

pub answer_sent-IsValid :
    (cfg : Config) (k : ActiveCall) (c : Controller)
    → c.call ≡ some k
    → IsValid c
    → (sent : Bool) → k.awaiting ≡ signal_sent
    → k.direction ≡ incoming
    → IsValid (answer_sent cfg k.ref sent c)
unfolding answer_sent
answer_sent-IsValid cfg k c e v sent a d =
    with_current_rule IsValid k.ref (answer_sent_body cfg sent) c v
      λ j f r. answer_sent_body-IsValid cfg j c f v sent (ground arith) (ground arith)
