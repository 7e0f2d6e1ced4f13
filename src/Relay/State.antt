-- ===== src/Relay/State.antt =====
-- src/transport/relay.ts: the state of RelayClient. Sockets and requests are numbered: a request's rid is
-- the letter r and its number. What the client does to the outside goes to `trace`, newest first.
-- `RelayStatus`.
use nuco_messenger.Prelude.{
  Bool, List, Option, String, [], false, if◌then◌else◌, is_some, none, not, some, str_eq, true, ℕ,
  ◌∷◌,
}

pub data RelayStatus : Type 0 where
  disconnected connecting reconnecting connected : RelayStatus

-- An OutboundItem, without the callbacks of its promise and the wake hint that goes out with it.
pub record Parcel : Type 0 where
  pub to : String
  pub envelope : String

-- Who awaits the reply to a request: a `flushOutbound` that sends a parcel, a registration without or
-- with an attestation, or the caller of one of the other requests.
pub data Purpose : Type 0 where
  flushes : Parcel → Purpose
  registers attests : Purpose
  updates deregisters asks_turn reports : Purpose

-- `ClientMessage`.
pub data Frame : Type 0 where
  connect authenticate ping : Frame
  request : ℕ → Purpose → Frame
  acknowledge : String → Frame

-- How the promise of a caller ends: none is success, and otherwise the message of its error.
pub data ClientEffect : Type 0 where
  sends : Frame → ClientEffect
  opens closes : ℕ → ClientEffect
  status_is : RelayStatus → ClientEffect
  settles : Parcel → Option String → ClientEffect
  answers : Purpose → Option String → ClientEffect
  delivers : String → ClientEffect
  reports_error : String → ClientEffect
  readies : ℕ → ClientEffect

pub record Pending : Type 0 where
  pub rid : ℕ
  pub purpose : Purpose

-- The options that matter to the protocol.
pub record Options : Type 0 where
  pub has_registration : Bool
  pub has_attestation : Bool
  pub auto_reconnect : Bool

-- `reconnect_timer` is the delay that its timer was set to.
pub record Client : Type 0 where
  pub socket : Option ℕ
  pub sockets : ℕ
  pub status : RelayStatus
  pub rid_counter : ℕ
  pub pending : List Pending
  pub outbound : List Parcel
  pub ready_waiters : List ℕ
  pub heartbeat : Bool
  pub reconnect_timer : Option ℕ
  pub reconnect_attempts : ℕ
  pub closed_by_user : Bool
  pub pending_challenge : Option String
  pub did_try_register : Bool
  pub server_version : Option (ℕ × ℕ)
  pub trace : List ClientEffect

abbrev pub note : ClientEffect → Client → Client
note e c = record c { trace = e ∷ c.trace }

-- `sendFrame`: without a socket nothing is sent.
unfoldable pub send_frame : Frame → Client → Client
send_frame f c = if is_some c.socket then note (sends f) c else c

-- `setStatus`.
abbrev pub set_relay_status : RelayStatus → Client → Client
set_relay_status s c = note (status_is s) (record c { status = s })

-- `this.ws?.close()`; the close event comes later.
unfoldable pub close_socket : Client → Client
close_socket c = elim c.socket [ none ↦ c | some n ↦ note (closes n) c ]

abbrev is_connected_status : RelayStatus → Bool
is_connected_status connected = true
is_connected_status _ = false

-- `isConnected`.
abbrev pub is_connected : Client → Bool
is_connected c = is_connected_status c.status

abbrev pub new_client : Client
new_client = record {
  socket = none;
  sockets = 0;
  status = disconnected;
  rid_counter = 0;
  pending = [];
  outbound = [];
  ready_waiters = [];
  heartbeat = false;
  reconnect_timer = none;
  reconnect_attempts = 0;
  closed_by_user = false;
  pending_challenge = none;
  did_try_register = false;
  server_version = none;
  trace = [];
}

-- An empty challenge counts as none.
abbrev pub has_challenge : Client → Bool
has_challenge c = elim c.pending_challenge [ none ↦ false | some s ↦ not (str_eq s "") ]
