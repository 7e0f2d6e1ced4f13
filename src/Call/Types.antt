-- ===== src/Call/Types.antt =====
-- src/calls/types.ts: the data that the call controller keeps, receives and sends.
use nuco_messenger.Prelude.{ℕ, String, Bool, Option}

-- `CallContact`.
pub record Contact : Type 0 where
  pub id : String
  pub handle : String
  pub display_name : String

pub data Direction : Type 0 where
  incoming outgoing : Direction

-- `CallStatus`.
pub data Status : Type 0 where
  idle starting outgoing_ringing incoming_ringing connecting active reconnecting ending : Status

-- `CallAvailability`.
pub data Availability : Type 0 where
  available busy blocked no_session offline : Availability

-- `CallUiEndReason`.
pub data UiEndReason : Type 0 where
  ended declined peer_busy no_answer canceled connection_lost no_turn mic_failed failed :
      UiEndReason

-- The reason field of a call/end signal. On receipt it may be any text.
pub data EndReason : Type 0 where
  hangup decline busy_elsewhere timeout error : EndReason
  other : String → EndReason

-- `CallSignal`, the four call variants of the message content.
pub data CallSignal : Type 0 where
  offer : String → String → CallSignal
  accept : String → CallSignal
  answered : String → String → CallSignal
  hung_up : String → EndReason → CallSignal

-- `IceState`.
pub data IceState : Type 0 where
  fresh checking connected completed disconnected broken closed : IceState

-- `CallRowKind`.
pub data RowKind : Type 0 where
  outgoing_call incoming_call missed_call declined_call : RowKind

-- The body of a row: a marker, or the duration in seconds, which the source prints in decimal.
pub data RowBody : Type 0 where
  busy_marker canceled_marker error_marker : RowBody
  seconds : ℕ → RowBody

-- `CallRowInput`.
pub record Row : Type 0 where
  pub call_id : String
  pub contact_id : String
  pub kind : RowKind
  pub direction : Direction
  pub body : Option RowBody
  pub unread : Bool

-- `CallUiSnapshot`.
pub record Snapshot : Type 0 where
  pub status : Status
  pub contact_id : Option String
  pub contact_name : String
  pub direction : Option Direction
  pub muted : Bool
  pub speaker : Bool
  pub active_since : Option ℕ
  pub end_reason : Option UiEndReason
