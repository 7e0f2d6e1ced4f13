-- ===== src/Negotiation/State.antt =====
-- src/services/messaging.ts: what a negotiation changes on one device.
use nuco_messenger.Call.Types.{Direction, incoming, outgoing}
use nuco_messenger.Db.Conversations.{
  Conversation, Conversations, ensure_conversation, get_conversation,
}
use nuco_messenger.Db.Messages.{
  Message, MessageKind, MessageStatus, Messages, delivered, insert_message, sent,
}
use nuco_messenger.Images.Receive.{expiry_for}
use nuco_messenger.Prelude.{Bool, List, Option, String, none, some, ℕ, ◌∷◌}

-- The control messages of the two negotiations, of the protocol's content union.
pub data Control : Type 0 where
  retention_asks retention_accepts : ℕ → Control
  retention_cancels : Control
  screenshot_asks screenshot_accepts : Bool → Control
  screenshot_cancels : Control

-- `outbox` is what `sendControl` hands to the transport, newest first.
pub record Device : Type 0 where
  pub conversations : Conversations
  pub messages : Messages
  pub outbox : List Control

abbrev pub send_control : Control → Device → Device
send_control signal d = record d { outbox = signal ∷ d.outbox }

abbrev status_of : Direction → MessageStatus
status_of outgoing = sent
status_of incoming = delivered

-- The row that `insertSystemMessage` inserts.
unfoldable pub system_row :
    String → String → MessageKind → Direction → Option String → ℕ → ℕ → ℕ → Bool → Message
unfolding expiry_for
system_row key c kind direction value retention at expiry_from seen = record {
  id = key;
  conversation_id = c;
  direction = direction;
  kind = kind;
  body = value;
  meta = none;
  message_status = status_of direction;
  sent_at = at;
  expires_at = expiry_for retention expiry_from;
  read = seen;
  reply_to_id = none;
  media_meta = none;
}

-- `insertSystemMessage`.
unfoldable pub insert_system_message :
    String → String → MessageKind → Direction → Option String → ℕ → ℕ → ℕ → Bool → Device → Device
unfolding system_row
insert_system_message key c kind direction value retention at expiry_from seen d = record d {
  messages =
      insert_message (system_row key c kind direction value retention at expiry_from seen)
        d.messages;
}

abbrev pub change_conversations : (Conversations → Conversations) → Device → Device
change_conversations f d = record d { conversations = f d.conversations }

-- `ensureConversation` with the default of one day.
unfoldable pub ensure_on : String → ℕ → Device → Conversation × Device
unfolding ensure_conversation
ensure_on c now d =
    let (convo, table) = ensure_conversation c c 86400 now d.conversations in
    (convo, record d { conversations = table })

-- `getConversation`, or else `ensureConversation`.
unfoldable pub found_on : String → ℕ → Device → Conversation × Device
unfolding ensure_on
found_on c now d = elim (get_conversation c d.conversations) [
  | some convo ↦ (convo, d)
  | none ↦ ensure_on c now d
]
