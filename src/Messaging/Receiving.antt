-- ===== src/Messaging/Receiving.antt =====
-- src/services/messaging.ts: `doReceiveEnvelope`, from the gates to the acknowledgement. What the Signal
-- session and the decoder of the protocol package make of an envelope is an argument; a query of the
-- open database is taken not to throw, and `emitConversationsChanged` only tells the screens.
use nuco_messenger.Call.Types.{incoming}
use nuco_messenger.Db.Contacts.{
  ContactRow, get_contact_by_handle, is_mutually_verified, reset_verification, set_contact_name,
}
use nuco_messenger.Db.Messages.{
  delete_peer_authored, delivered, identity_changed, insert_message, name_changed, text,
}
use nuco_messenger.Db.Transfers.{ImageTransfer, delete_conversation_transfer}
use nuco_messenger.Images.Receive.{expiry_for, receive_chunk, receive_image, sealed_or_plain}
use nuco_messenger.Messaging.Confirms.{
  flush_deferred_confirm, forget_confirm_state, handle_inbound_confirm,
}
use nuco_messenger.Messaging.Store.{
  Announcement, Content, Store, World, call_content, control, device_of, image_chunk, image_content,
  message_delete, on_device, on_inbox, profile_name, text_content, unknown_content, verify_confirm,
  with_device,
}
use nuco_messenger.Negotiation.Retention.{
  receive_retention_accept, receive_retention_cancel, receive_retention_request,
}
use nuco_messenger.Negotiation.Screenshot.{
  receive_screenshot_accept, receive_screenshot_cancel, receive_screenshot_request,
}
use nuco_messenger.Negotiation.State.{
  Control, Device, found_on, insert_system_message, retention_accepts, retention_asks,
  retention_cancels, screenshot_accepts, screenshot_asks, screenshot_cancels,
}
use nuco_messenger.Prelude.{
  Option, String, false, if◌then◌else◌, none, some, str_eq, suc, ℕ, ◌==◌, ◌||◌, ◌∷◌,
}
use nuco_messenger.Prelude.Keys.{delete}

-- The type of the ciphertext.
pub data MessageType : Type 0 where
  prekey whisper : MessageType

pub record Envelope : Type 0 where
  pub id : String
  pub message_type : MessageType
  pub sent_at : ℕ

-- What becomes of a ciphertext: its content, one of the two errors that the source tells apart, or any
-- other error.
pub data Decryption : Type 0 where
  opened : Content → Decryption
  changed_identity duplicate undecryptable : Decryption

abbrev pub ack : Envelope → Store → Store
ack e s = record s { acks = e.id ∷ s.acks }

-- `envelope.sentAt || now`.
abbrev pub stamp : Envelope → ℕ → ℕ
stamp e now = if e.sent_at == 0 then now else e.sent_at

abbrev ack_unless_prekey : MessageType → Envelope → Store → Store
ack_unless_prekey prekey e s = s
ack_unless_prekey whisper e s = ack e s

-- `handleIdentityChange`.
unfoldable pub handle_identity_change : ContactRow → Envelope → ℕ → Store → Store
unfolding forget_confirm_state found_on insert_system_message
handle_identity_change c e now s =
    let forgotten =
      forget_confirm_state c.handle (record s { contacts = reset_verification c.id s.contacts }) in
    let dropped = record forgotten { sessions = delete c.handle forgotten.sessions } in
    let (convo, ensured) = found_on c.id now (device_of dropped) in
    with_device dropped (
      insert_system_message e.id c.id identity_changed incoming none convo.retention_seconds
        (stamp e now) now false ensured)

-- The conversation is there before the switch.
unfoldable pub with_conversation : ContactRow → ℕ → Store → Store
unfolding found_on
with_conversation c now s = with_device s (found_on c.id now (device_of s)).1

-- The branch `message/delete`.
unfoldable pub receive_delete : ContactRow → String → Store → Store
unfolding delete_peer_authored delete_conversation_transfer
receive_delete c key s = record s {
  messages = (delete_peer_authored key c.id s.messages).1;
  staging = delete_conversation_transfer key c.id s.staging;
}

module _ (w : World) where
  -- The branch `text`.
  unfoldable pub receive_text : ContactRow → Envelope → String → Option String → ℕ → Store → Store
  unfolding found_on expiry_for
  receive_text c e body reply now s =
      let (convo, ensured) = found_on c.id now (device_of s) in
      let (stored, sealing) =
        sealed_or_plain w.ciphers s.draws convo.lock_enabled convo.lock_pubkey c.id e.id body in
      record (with_device s ensured) {
        draws = suc s.draws;
        messages =
            insert_message
              (record {
                id = e.id;
                conversation_id = c.id;
                direction = incoming;
                kind = text;
                body = some stored;
                meta = sealing;
                message_status = delivered;
                sent_at = stamp e now;
                expires_at = expiry_for convo.retention_seconds now;
                read = false;
                reply_to_id = reply;
                media_meta = none;
              })
              ensured.messages;
      }

  -- The branches of the negotiations.
  abbrev pub receive_control : Control → String → String → ℕ → ℕ → Device → Device
  receive_control (retention_asks n) c key at now d =
      receive_retention_request w.print c key n at now d
  receive_control (retention_accepts n) c key at now d =
      receive_retention_accept w.print c key n at now d
  receive_control retention_cancels c key at now d = receive_retention_cancel w.print c key at now d
  receive_control (screenshot_asks on) c key at now d = receive_screenshot_request c key on at now d
  receive_control (screenshot_accepts on) c key at now d =
      receive_screenshot_accept c key on at now d
  receive_control screenshot_cancels c key at now d = receive_screenshot_cancel c key at now d

  abbrev pub transfer_of : ContactRow → Envelope → Announcement → ℕ → ImageTransfer
  transfer_of c e a now = record {
    ref = e.id;
    conversation_id = c.id;
    mime = a.mime;
    width = a.width;
    height = a.height;
    bytes = a.bytes;
    sha256 = a.sha256;
    chunks_total = a.chunks;
    sent_at = stamp e now;
    created_at = now;
  }

  -- The branch `profile/name`.
  unfoldable pub receive_name : ContactRow → Envelope → String → ℕ → Store → Store
  unfolding found_on insert_system_message
  receive_name c e name now s =
      let new_name = w.trim name in
      if str_eq new_name "" || str_eq new_name c.display_name
      then s
      else (let (convo, ensured) = found_on c.id now (device_of s) in
          with_device (record s { contacts = set_contact_name c.id new_name s.contacts })
            (insert_system_message e.id c.id name_changed incoming
              (some (w.name_pair c.display_name new_name)) convo.retention_seconds (stamp e now) now
              false ensured))

  -- The switch on the content, for a mutually verified contact.
  unfoldable pub route : ContactRow → Envelope → Content → ℕ → Store → Store
  unfolding receive_text receive_delete receive_name receive_image receive_chunk
      receive_retention_request receive_retention_accept receive_retention_cancel
      receive_screenshot_request receive_screenshot_accept receive_screenshot_cancel found_on
  route c e (text_content body reply) now s = receive_text c e body reply now s
  route c e (image_content a) now s = on_inbox (receive_image (transfer_of c e a now)) s
  route c e (image_chunk key n body) now s =
      let (convo, ensured) = found_on c.id now (device_of s) in
      on_inbox (receive_chunk w.tools w.ciphers s.draws now convo c.id key n body)
        (record s { draws = suc s.draws })
  route c e (control k) now s = on_device (receive_control k c.id e.id (stamp e now) now) s
  route c e (call_content k) now s = record s {
    rung =
        record {
          from = record { id = c.id; handle = c.handle; display_name = c.display_name };
          signal = k;
          sent_at = stamp e now;
        }
        ∷ s.rung;
  }
  route c e (message_delete key) now s = receive_delete c key s
  route c e (profile_name name) now s = receive_name c e name now s
  route c e (verify_confirm hash) now s = s
  route c e unknown_content now s = s

  -- An opened content: confirms first, then the gate of the mutual verification.
  unfoldable pub receive_content : ContactRow → Envelope → Content → ℕ → Store → Store
  unfolding flush_deferred_confirm route with_conversation handle_inbound_confirm
  receive_content c e (verify_confirm hash) now s =
      ack e (handle_inbound_confirm w c hash e.id (stamp e now) now s)
  receive_content c e content now s =
      let flushed = flush_deferred_confirm w now c s in
      if is_mutually_verified c
      then ack e (route c e content now (with_conversation c now flushed))
      else ack e flushed

  unfoldable pub receive_from : ContactRow → Envelope → Decryption → ℕ → Store → Store
  unfolding receive_content handle_identity_change
  receive_from c e (opened content) now s = receive_content c e content now s
  receive_from c e changed_identity now s = ack e (handle_identity_change c e now s)
  receive_from c e duplicate now s = ack e s
  receive_from c e undecryptable now s = s

  -- `doReceiveEnvelope`.
  unfoldable pub receive_envelope : String → Envelope → Decryption → ℕ → Store → Store
  unfolding receive_from get_contact_by_handle
  receive_envelope from e outcome now s =
      if s.is_unlocked
      then (elim (get_contact_by_handle from s.contacts) [
        | none ↦ ack_unless_prekey e.message_type e s
        | some c ↦ if c.is_blocked then ack e s else receive_from c e outcome now s
      ])
      else s
