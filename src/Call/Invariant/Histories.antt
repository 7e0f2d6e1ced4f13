-- ===== src/Call/Invariant/Histories.antt =====
-- The invariant of Call.Invariant along the events and the histories of Call.Machine.
use nuco_messenger.Call.Invariant.{IsValid, init-IsValid}
use nuco_messenger.Call.Invariant.Answering.{
  answer-IsValid, answer_sdp-IsValid, answer_sent-IsValid, answer_turn-IsValid,
}
use nuco_messenger.Call.Invariant.Ending.{
  linger_fires-IsValid, lock_row-IsValid, lock_signal-IsValid, lock_teardown-IsValid,
}
use nuco_messenger.Call.Invariant.Receiving.{handle_call_signal-IsValid}
use nuco_messenger.Call.Invariant.Starting.{
  place_call-IsValid, place_sdp-IsValid, place_sent-IsValid, place_turn-IsValid,
}
use nuco_messenger.Call.Invariant.Talking.{
  answer_rejected-IsValid, decline_call-IsValid, hang_up-IsValid, on_ice_state-IsValid,
  set_muted-IsValid, set_speaker-IsValid,
}
use nuco_messenger.Call.Invariant.Timing.{
  connect_fires-IsValid, grace_ends-IsValid, ring_fires-IsValid,
}
use nuco_messenger.Call.Machine.{
  Event, answer_refused, answers, connect_window_ends, declines, engine_in, engine_settled,
  fire_rule, grace_ends, hangs_up, ice, linger_ends, lock_finishes, lock_signals, lock_writes,
  mutes, places, receives, resume_rule, ring_fires, run, send_in, send_settled, speaks, step,
  turn_in, turn_settled,
}
use nuco_messenger.Call.Outgoing.{EngineResult}
use nuco_messenger.Call.State.{
  ActiveCall, Await, Config, Controller, engine_sdp, init, signal_sent, turn_credentials,
}
use nuco_messenger.Call.Teardown.{linger_fires}
use nuco_messenger.Call.Types.{Direction, incoming, outgoing}
use nuco_messenger.Prelude.{Bool, List, String, [], refl, some, ℕ, ◌∷◌, ◌≡◌}

module _ (cfg : Config) (c : Controller) (k : ActiveCall) (e : c.call ≡ some k)
    (v : IsValid c) where
  turn_in-IsValid :
      (got : Bool) (a : Await) (d : Direction)
      → k.awaiting ≡ a
      → k.direction ≡ d
      → IsValid (turn_in cfg got a d k c)
  unfolding turn_in
  turn_in-IsValid got turn_credentials outgoing p q = place_turn-IsValid cfg k c e v got p q
  turn_in-IsValid got turn_credentials incoming p q = answer_turn-IsValid cfg k c e v got p q
  turn_in-IsValid got _ _ p q = v

  engine_in-IsValid :
      (r : EngineResult) (a : Await) (d : Direction)
      → k.awaiting ≡ a
      → k.direction ≡ d
      → IsValid (engine_in cfg r a d k c)
  unfolding engine_in
  engine_in-IsValid r engine_sdp outgoing p q = place_sdp-IsValid cfg k c e v r p q
  engine_in-IsValid r engine_sdp incoming p q = answer_sdp-IsValid cfg k c e v r p q
  engine_in-IsValid r _ _ p q = v

  send_in-IsValid :
      (sent : Bool) (a : Await) (d : Direction)
      → k.awaiting ≡ a
      → k.direction ≡ d
      → IsValid (send_in cfg sent a d k c)
  unfolding send_in
  send_in-IsValid sent signal_sent outgoing p q = place_sent-IsValid cfg k c e v sent p q
  send_in-IsValid sent signal_sent incoming p q = answer_sent-IsValid cfg k c e v sent p q
  send_in-IsValid sent _ _ p q = v

module _ (cfg : Config) (wins : String → String → Bool) where
  -- Whatever happens to a controller that meets the invariant, the invariant holds after it.
  pub step-IsValid :
      (now : ℕ) (e : Event) (c : Controller) → IsValid c → IsValid (step cfg wins now e c)
  unfolding step
  step-IsValid now (places availability contact id) c v =
      place_call-IsValid availability contact id c v
  step-IsValid now (turn_settled ref got) c v =
      resume_rule IsValid ref (turn_in cfg got) c v
        λ k e. turn_in-IsValid cfg c k e v got k.awaiting k.direction refl refl
  step-IsValid now (engine_settled ref result) c v =
      resume_rule IsValid ref (engine_in cfg result) c v
        λ k e. engine_in-IsValid cfg c k e v result k.awaiting k.direction refl refl
  step-IsValid now (send_settled ref sent) c v =
      resume_rule IsValid ref (send_in cfg sent) c v
        λ k e. send_in-IsValid cfg c k e v sent k.awaiting k.direction refl refl
  step-IsValid now answers c v = answer-IsValid c v
  step-IsValid now declines c v = decline_call-IsValid cfg c v
  step-IsValid now hangs_up c v = hang_up-IsValid cfg c v now
  step-IsValid now (mutes on) c v = set_muted-IsValid cfg c v on
  step-IsValid now (speaks on) c v = set_speaker-IsValid cfg c v on
  step-IsValid now (receives from signal sent_at) c v =
      handle_call_signal-IsValid cfg from c v wins now signal sent_at
  step-IsValid now (ice ref s) c v = on_ice_state-IsValid cfg c v now ref s
  step-IsValid now (answer_refused ref) c v = answer_rejected-IsValid cfg c v ref
  step-IsValid now ring_fires c v = ring_fires-IsValid cfg c v
  step-IsValid now connect_window_ends c v = connect_fires-IsValid cfg c v
  step-IsValid now grace_ends c v = grace_ends-IsValid cfg c v now
  step-IsValid now linger_ends c v =
      fire_rule IsValid c.linger_timer (λ t. linger_fires) c v λ t e. linger_fires-IsValid c v
  step-IsValid now (lock_signals task) c v = lock_signal-IsValid task c v
  step-IsValid now (lock_writes task) c v = lock_row-IsValid task c v
  step-IsValid now (lock_finishes task) c v = lock_teardown-IsValid task c v

  run-IsValid : (es : List (ℕ × Event)) (c : Controller) → IsValid c → IsValid (run cfg wins es c)
  unfolding run
  run-IsValid [] c v = v
  run-IsValid ((now, e) ∷ es) c v = run-IsValid es (step cfg wins now e c) (step-IsValid now e c v)

  -- After every history of events, in any order and at any times, the controller meets its
  -- invariant: it has a call exactly in the live statuses, an end reason and an end view exactly
  -- while it shows the end; a ring, connect or grace timer that runs is one of the live call, the ring
  -- timer runs exactly while the call rings, and the grace timer exactly while it reconnects; the
  -- linger timer runs while the end is shown, and not with a live call; no timer was lost; and the set
  -- of ended calls has at most twenty, all different.
  pub run-init-IsValid : (es : List (ℕ × Event)) → IsValid (run cfg wins es init)
  run-init-IsValid es = run-IsValid es init init-IsValid
