-- ===== src/Call/State.antt =====
-- src/calls/controller.ts: the state of `CallController`, and its private helpers (snapshots, timers,
-- sends, teardown). A method takes the controller and returns the changed one.
--
-- An `ActiveCall` object is compared by reference (`this.call !== call`), so each has a number of its
-- own, `ref`. What a method calls in its dependencies is kept in `trace`, newest first. A timer
-- remembers the call object that its callback closed over; one that is assigned over while it runs
-- goes to `orphans`, since nothing can cancel it any more.
use nuco_messenger.Prelude.{ℕ, ◌*◌, String, Bool, false, Option, none, some, List, [], ◌∷◌}
use nuco_messenger.Call.Types.{
  Contact, Direction, Status, idle, UiEndReason, CallSignal, Row, Snapshot,
}

-- The timeouts of the constructor, in milliseconds.
pub record Config : Type 0 where
  pub ring_timeout_ms : ℕ
  pub connect_timeout_ms : ℕ
  pub disconnect_grace_ms : ℕ
  pub ended_linger_ms : ℕ
  pub stale_offer_ms : ℕ
  pub signal_timeout_ms : ℕ

abbrev or_else : Option ℕ → ℕ → ℕ
or_else none d = d
or_else (some n) d = n

-- The optional fields of `CallControllerDeps`.
pub record Overrides : Type 0 where
  pub ring_timeout_ms : Option ℕ
  pub connect_timeout_ms : Option ℕ
  pub disconnect_grace_ms : Option ℕ
  pub ended_linger_ms : Option ℕ
  pub stale_offer_ms : Option ℕ
  pub signal_timeout_ms : Option ℕ

-- The defaults; the ring and the stale window, in seconds, are the protocol package's.
unfoldable pub configure : ℕ → ℕ → Overrides → Config
configure ring_timeout_seconds offer_stale_seconds deps = record {
  ring_timeout_ms = or_else deps.ring_timeout_ms (ring_timeout_seconds * 1000);
  connect_timeout_ms = or_else deps.connect_timeout_ms 15000;
  disconnect_grace_ms = or_else deps.disconnect_grace_ms 10000;
  ended_linger_ms = or_else deps.ended_linger_ms 1500;
  stale_offer_ms = or_else deps.stale_offer_ms (offer_stale_seconds * 1000);
  signal_timeout_ms = or_else deps.signal_timeout_ms 10000;
}

-- Which promise the asynchronous method of this call object (`placeCall` or `answer`) awaits.
pub data Await : Type 0 where
  nothing turn_credentials engine_sdp signal_sent : Await

pub record ActiveCall : Type 0 where
  pub ref : ℕ
  pub call_id : String
  pub contact : Contact
  pub direction : Direction
  pub engine : Bool
  pub pending_offer_sdp : Option String
  pub offer_send_started : Bool
  pub answer_applied : Bool
  pub active_since : Option ℕ
  pub muted : Bool
  pub speaker : Bool
  pub awaiting : Await

pub record EndingView : Type 0 where
  pub contact_id : String
  pub contact_name : String
  pub direction : Direction

pub data Effect : Type 0 where
  send_signal : String → CallSignal → Effect
  write_row : Row → Effect
  on_state : Snapshot → Effect
  start_incoming_ring stop_incoming_ring start_call_audio stop_call_audio : Effect
  audio_speaker : Bool → Effect
  create_engine close_engine : ℕ → Effect
  engine_muted : ℕ → Bool → Effect
  accept_answer_sdp : ℕ → String → Effect

-- Which callback a timer has.
pub data TimerKind : Type 0 where
  caller_ring callee_ring connect_window disconnect_grace linger : TimerKind

-- `ref` is the call object that the callback closed over (the linger callback uses none).
pub record Timer : Type 0 where
  pub kind : TimerKind
  pub ref : ℕ
  pub delay_ms : ℕ

pub record Controller : Type 0 where
  pub status : Status
  pub end_reason : Option UiEndReason
  pub call : Option ActiveCall
  pub ending_view : Option EndingView
  pub recently_ended : List String
  pub ring_timer : Option Timer
  pub connect_timer : Option Timer
  pub disconnect_timer : Option Timer
  pub linger_timer : Option Timer
  pub orphans : List Timer
  pub next_ref : ℕ
  pub trace : List Effect

-- `RECENT_CALL_IDS_MAX`.
abbrev pub recent_call_ids_max : ℕ
recent_call_ids_max = 20

unfoldable pub init : Controller
init = record {
  status = idle;
  end_reason = none;
  call = none;
  ending_view = none;
  recently_ended = [];
  ring_timer = none;
  connect_timer = none;
  disconnect_timer = none;
  linger_timer = none;
  orphans = [];
  next_ref = 0;
  trace = [];
}

snapshot_of : Option ActiveCall → Option EndingView → Status → Option UiEndReason → Snapshot
snapshot_of (some k) view status reason = record {
  status = status;
  contact_id = some k.contact.id;
  contact_name = k.contact.display_name;
  direction = some k.direction;
  muted = k.muted;
  speaker = k.speaker;
  active_since = k.active_since;
  end_reason = reason;
}
snapshot_of none (some v) status reason = record {
  status = status;
  contact_id = some v.contact_id;
  contact_name = v.contact_name;
  direction = some v.direction;
  muted = false;
  speaker = false;
  active_since = none;
  end_reason = reason;
}
snapshot_of none none status reason = record {
  status = status;
  contact_id = none;
  contact_name = "";
  direction = none;
  muted = false;
  speaker = false;
  active_since = none;
  end_reason = reason;
}

-- `getSnapshot()`.
unfoldable pub get_snapshot : Controller → Snapshot
unfolding snapshot_of
get_snapshot c = snapshot_of c.call c.ending_view c.status c.end_reason

abbrev pub log : Effect → Controller → Controller
log e c = record c { trace = e ∷ c.trace }

unfoldable pub emit : Controller → Controller
emit c = log (on_state (get_snapshot c)) c

unfoldable pub set_status : Status → Controller → Controller
unfolding emit
set_status next c = emit (record c { status = next })

-- Assigning a timer field: a timer that still runs there is lost.
abbrev replaced : Option Timer → List Timer → List Timer
replaced none orphans = orphans
replaced (some t) orphans = t ∷ orphans

unfoldable pub arm_ring : Timer → Controller → Controller
arm_ring t c = record c { ring_timer = some t; orphans = replaced c.ring_timer c.orphans }

unfoldable pub arm_connect : Timer → Controller → Controller
arm_connect t c = record c { connect_timer = some t; orphans = replaced c.connect_timer c.orphans }

unfoldable pub arm_disconnect : Timer → Controller → Controller
arm_disconnect t c = record c {
  disconnect_timer = some t;
  orphans = replaced c.disconnect_timer c.orphans;
}

unfoldable pub arm_linger : Timer → Controller → Controller
arm_linger t c = record c { linger_timer = some t; orphans = replaced c.linger_timer c.orphans }

abbrev pub clear_ring : Controller → Controller
clear_ring c = record c { ring_timer = none }

abbrev pub clear_connect : Controller → Controller
clear_connect c = record c { connect_timer = none }

abbrev pub clear_disconnect : Controller → Controller
clear_disconnect c = record c { disconnect_timer = none }
