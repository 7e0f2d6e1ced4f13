-- ===== src/Call/Machine.antt =====
-- src/calls/controller.ts as one machine. An event is a call of a method, the end of a promise that
-- the live call awaits, a timer, or a part of `onAppLocking` after one of its awaits; events may come
-- in any order. A promise that a replaced call object awaits is among them: its event names that object.
use nuco_messenger.Call.Ends.{LockTask, handle_call_signal, lock_row, lock_signal, lock_teardown}
use nuco_messenger.Call.Incoming.{
  answer, answer_sdp, answer_sent, answer_turn, callee_ring_fires, connect_fires, decline_call,
  hang_up, set_muted, set_speaker,
}
use nuco_messenger.Call.Media.{disconnect_fires, on_ice_state}
use nuco_messenger.Call.Outgoing.{
  EngineResult, caller_ring_fires, current, current-cases, place_call, place_sdp, place_sent,
  place_turn,
}
use nuco_messenger.Call.Signals.{answer_rejected}
use nuco_messenger.Call.State.{
  ActiveCall, Await, Config, Controller, Timer, TimerKind, callee_ring, caller_ring, engine_sdp,
  signal_sent, turn_credentials,
}
use nuco_messenger.Call.Teardown.{linger_fires}
use nuco_messenger.Call.Types.{
  Availability, CallSignal, Contact, Direction, IceState, incoming, outgoing,
}
use nuco_messenger.Prelude.{Bool, List, Option, String, [], inl, inr, none, refl, some, ℕ, ◌∷◌, ◌≡◌}

pub data Event : Type 0 where
  places : Availability → Contact → String → Event
  turn_settled : ℕ → Bool → Event
  engine_settled : ℕ → EngineResult → Event
  send_settled : ℕ → Bool → Event
  answers declines hangs_up : Event
  mutes speaks : Bool → Event
  receives : Contact → CallSignal → ℕ → Event
  ice : ℕ → IceState → Event
  answer_refused : ℕ → Event
  ring_fires connect_window_ends grace_ends linger_ends : Event
  lock_signals lock_writes lock_finishes : LockTask → Event

unfoldable pub turn_in : Config → Bool → Await → Direction → ActiveCall → Controller → Controller
turn_in cfg got turn_credentials outgoing k c = place_turn cfg k.ref got c
turn_in cfg got turn_credentials incoming k c = answer_turn cfg k.ref got c
turn_in cfg got _ _ k c = c

unfoldable pub engine_in :
    Config → EngineResult → Await → Direction → ActiveCall → Controller → Controller
engine_in cfg result engine_sdp outgoing k c = place_sdp cfg k.ref result c
engine_in cfg result engine_sdp incoming k c = answer_sdp cfg k.ref result c
engine_in cfg result _ _ k c = c

unfoldable pub send_in : Config → Bool → Await → Direction → ActiveCall → Controller → Controller
send_in cfg sent signal_sent outgoing k c = place_sent cfg k.ref sent c
send_in cfg sent signal_sent incoming k c = answer_sent cfg k.ref sent c
send_in cfg sent _ _ k c = c

-- The promise that the object `ref` awaits, if it is still the live call; the parts of a method for a
-- replaced object begin with that check (`with_current` of Call.Outgoing).
abbrev pub resume :
    ℕ → (Await → Direction → ActiveCall → Controller → Controller) → Controller → Controller
resume ref part c = elim (current ref c.call) [
  | none ↦ c
  | some k ↦ part k.awaiting k.direction k c
]

pub resume_rule {ℓ} :
    (P : Controller → Type ℓ) (ref : ℕ)
    (part : Await → Direction → ActiveCall → Controller → Controller)
    → (c : Controller) → P c
    → ((k : ActiveCall) → c.call ≡ some k → P (part k.awaiting k.direction k c))
    → P (resume ref part c)
resume_rule P ref part c stale live = elim (current-cases ref c.call) [
  | inl e ↦ rw (e, resume) stale
  | inr (k, e, r, f) ↦ rw (f, resume) (live k e)
]

unfoldable pub fire_ring : Config → TimerKind → ℕ → Controller → Controller
fire_ring cfg caller_ring ref c = caller_ring_fires cfg ref c
fire_ring cfg callee_ring ref c = callee_ring_fires cfg ref c
fire_ring cfg _ ref c = c

-- A timer fires only while it runs.
abbrev pub fire : Option Timer → (Timer → Controller → Controller) → Controller → Controller
fire none callback c = c
fire (some t) callback c = callback t c

pub fire_rule {ℓ} :
    (P : Controller → Type ℓ) (o : Option Timer) (callback : Timer → Controller → Controller)
    → (c : Controller) → P c
    → ((t : Timer) → o ≡ some t → P (callback t c))
    → P (fire o callback c)
fire_rule P none callback c quiet fires = quiet
fire_rule P (some t) callback c quiet fires = fires t refl

module _ (cfg : Config) (wins : String → String → Bool) where
  unfoldable pub step : ℕ → Event → Controller → Controller
  unfolding turn_in engine_in send_in fire_ring
  step now (places availability contact id) c = (place_call availability contact id c).1
  step now (turn_settled ref got) c = resume ref (turn_in cfg got) c
  step now (engine_settled ref result) c = resume ref (engine_in cfg result) c
  step now (send_settled ref sent) c = resume ref (send_in cfg sent) c
  step now answers c = answer c
  step now declines c = decline_call cfg c
  step now hangs_up c = hang_up cfg now c
  step now (mutes on) c = set_muted on c
  step now (speaks on) c = set_speaker on c
  step now (receives from signal sent_at) c = handle_call_signal cfg wins now from signal sent_at c
  step now (ice ref s) c = on_ice_state cfg now ref s c
  step now (answer_refused ref) c = answer_rejected cfg ref c
  step now ring_fires c = fire c.ring_timer (λ t. fire_ring cfg t.kind t.ref) c
  step now connect_window_ends c = fire c.connect_timer (λ t. connect_fires cfg t.ref) c
  step now grace_ends c = fire c.disconnect_timer (λ t. disconnect_fires cfg now t.ref) c
  step now linger_ends c = fire c.linger_timer (λ t. linger_fires) c
  step now (lock_signals task) c = lock_signal task c
  step now (lock_writes task) c = lock_row task c
  step now (lock_finishes task) c = lock_teardown task c

  -- Every history, each event at its time.
  unfoldable pub run : List (ℕ × Event) → Controller → Controller
  unfolding step
  run [] c = c
  run ((now, e) ∷ es) c = run es (step now e c)
