-- ===== src/Messaging/Sending.antt =====
-- src/services/messaging.ts: texts and images on their way out. `sendText` and `sendImage` are cut at the
-- await of the transport: the first part stores the row, and the second settles its status.
use nuco_messenger.Call.Types.{outgoing}
use nuco_messenger.Db.Conversations.{Conversation, ensure_conversation}
use nuco_messenger.Db.Messages.{
  Message, MessageKind, MessageStatus, insert_message, sending, sent, text, undelivered,
  update_message_status,
}
use nuco_messenger.Images.Receive.{expiry_for, sealed_or_plain}
use nuco_messenger.Messaging.Gate.{send_content}
use nuco_messenger.Messaging.Store.{Store, World, draw, text_content}
use nuco_messenger.Prelude.{Option, String, if◌then◌else◌, none, some, str_eq, suc, true, ℕ}
use nuco_messenger.Relay.Machine.{handed}

-- A new row of the own side.
abbrev pub outgoing_row :
    String
    → String
    → MessageKind
    → String
    → Option String
    → Option String
    → Option String
    → ℕ
    → ℕ
    → Message
outgoing_row key c kind stored sealing reply layout retention now = record {
  id = key;
  conversation_id = c;
  direction = outgoing;
  kind = kind;
  body = some stored;
  meta = sealing;
  message_status = sending;
  sent_at = now;
  expires_at = expiry_for retention now;
  read = true;
  reply_to_id = reply;
  media_meta = layout;
}

-- `textContent`: an empty id of a quoted message counts as none.
abbrev pub quoted : Option String → Option String
quoted none = none
quoted (some r) = if str_eq r "" then none else some r

-- The status that a finished send leaves.
abbrev pub status_after : Option String → MessageStatus
status_after none = sent
status_after (some e) = undelivered

unfoldable pub settle_send : String → Option String → Store → Store
unfolding update_message_status
settle_send key outcome s = record s {
  messages = update_message_status key (status_after outcome) s.messages;
}

module _ (w : World) where
  abbrev pub ensured_for : String → ℕ → ℕ → Store → Conversation × Store
  ensured_for c retention now s =
      let (convo, table) = ensure_conversation c c retention now s.conversations in
      (convo, record s { conversations = table })

  -- `sendText` up to its await of `sendContent`, with the id that it draws.
  unfoldable pub begin_text : String → String → ℕ → Option String → ℕ → Store → String × Store
  unfolding ensure_conversation insert_message expiry_for
  begin_text c body retention reply now s =
      let (key, drawn) = draw w s in
      let (convo, ensured) = ensured_for c retention now drawn in
      let (stored, sealing) =
        sealed_or_plain w.ciphers drawn.draws convo.lock_enabled convo.lock_pubkey c key body in
      (
        key,
        record ensured {
          draws = suc drawn.draws;
          messages =
              insert_message (outgoing_row key c text stored sealing reply none retention now)
                ensured.messages;
        },
      )

  -- `sendText` when nothing else happens before the transport answers.
  unfoldable pub send_text : String → String → String → ℕ → Option String → ℕ → Store → Store
  unfolding begin_text send_content settle_send
  send_text c handle body retention reply now s =
      let (key, begun) = begin_text c body retention reply now s in
      let (handed, outcome) =
        send_content w now handle (text_content body (quoted reply)) key begun in
      settle_send key outcome handed
