-- ===== src/Messaging/Resending.antt =====
-- src/services/messaging.ts: what an app kill interrupted is sent again, deletions, and marking as read. A
-- loop of sends is modelled with nothing else happening between them.
use nuco_messenger.Db.Contacts.{get_contact}
use nuco_messenger.Db.Messages.{
  Message, MessageKind, delete_message, get_message, image, is_content, is_inbound,
  mark_conversation_read, sending, update_message_status,
}
use nuco_messenger.Db.Pending.{PendingOutbound, list_pending_outbound, list_pending_outbound_sealed}
use nuco_messenger.Messaging.Gate.{send_content, send_control_to}
use nuco_messenger.Messaging.Sending.{quoted, settle_send}
use nuco_messenger.Messaging.SendingImages.{resend_image}
use nuco_messenger.Messaging.Store.{Store, World, message_delete, text_content}
use nuco_messenger.Prelude.{
  Bool, List, Option, String, [], false, if◌then◌else◌, none, not, some, str_eq, ℕ, ◌&&◌, ◌∷◌,
}
use nuco_messenger.Relay.Machine.{handed}

-- The handle of a row's contact, by the join of the query; a conversation's id is its contact's.
unfoldable pub handle_of : Store → String → Option String
unfolding get_contact
handle_of s c = elim (get_contact c s.contacts) [ none ↦ none | some r ↦ some r.handle ]

module _ (w : World) where
  -- The send of one row, by its kind.
  unfoldable pub resend_row :
      String
      → String
      → MessageKind
      → String
      → Option String
      → Option String
      → ℕ
      → Store
      → Store × Option String
  unfolding resend_image send_content
  resend_row handle key image body reply layout now s =
      resend_image w handle key (w.chars_of body) layout now s
  resend_row handle key kind body reply layout now s =
      send_content w now handle (text_content body (quoted reply)) key s

  abbrev settled : String → Store × Option String → Store
  settled key (handed, outcome) = settle_send key outcome handed

  abbrev pub body_of : Message → String
  body_of m = elim m.body [ none ↦ "" | some b ↦ b ]

  -- The loop of `resendPendingOutbound`.
  unfoldable pub resend_rows : List PendingOutbound → ℕ → Store → Store
  unfolding resend_row settle_send
  resend_rows [] now s = s
  resend_rows (p ∷ ps) now s =
      let m = p.message in
      resend_rows ps now (
        settled m.id (resend_row p.handle m.id m.kind (body_of m) m.reply_to_id m.media_meta now s))

  -- `resendPendingOutbound`.
  unfoldable pub resend_pending_outbound : ℕ → Store → Store
  unfolding resend_rows list_pending_outbound handle_of
  resend_pending_outbound now s =
      if s.is_unlocked
      then resend_rows (list_pending_outbound (handle_of s) s.messages) now s
      else s

  -- One row of a locked chat; `opened` is `openWithReleasedKey`, none where it throws.
  unfoldable pub resend_opened : PendingOutbound → Option String → ℕ → Store → Store
  unfolding resend_row settle_send
  resend_opened p none now s = settle_send p.message.id (some "locked") s
  resend_opened p (some body) now s =
      let m = p.message in
      settled m.id (resend_row p.handle m.id m.kind body m.reply_to_id m.media_meta now s)

  module _ (open_row : Message → Option String) where
    unfoldable pub resend_sealed_rows : List PendingOutbound → ℕ → Store → Store
    unfolding resend_opened
    resend_sealed_rows [] now s = s
    resend_sealed_rows (p ∷ ps) now s =
        resend_sealed_rows ps now (resend_opened p (open_row p.message) now s)

    -- `resendSealedPending`; `is_open` is `isChatUnlocked`.
    unfoldable pub resend_sealed_pending : Bool → String → ℕ → Store → Store
    unfolding resend_sealed_rows list_pending_outbound_sealed handle_of
    resend_sealed_pending is_open c now s =
        if s.is_unlocked && is_open
        then resend_sealed_rows (list_pending_outbound_sealed (handle_of s) c s.messages) now s
        else s

  -- `retrySend`.
  unfoldable pub retry_send : String → String → String → ℕ → Store → Store
  unfolding send_content settle_send update_message_status
  retry_send key handle body now s = settled key (
      send_content w now handle (text_content body none) key
        (record s { messages = update_message_status key sending s.messages }))

  abbrev is_own_content : Option Message → String → Bool
  is_own_content none c = false
  is_own_content (some m) c =
      str_eq m.conversation_id c && not (is_inbound m.direction) && is_content m.kind

  -- `deleteMessageForEveryone`.
  unfoldable pub delete_for_everyone : String → String → String → ℕ → Store → Store
  unfolding delete_message send_control_to get_message
  delete_for_everyone c handle key now s =
      if is_own_content (get_message key s.messages) c
      then send_control_to w now handle (message_delete key)
          (record s { messages = delete_message key s.messages })
      else s

-- `deleteMessageForMe`.
unfoldable pub delete_for_me : String → Store → Store
unfolding delete_message
delete_for_me key s = record s { messages = delete_message key s.messages }

-- `markRead`.
unfoldable pub mark_conversation : String → Store → Store
unfolding mark_conversation_read
mark_conversation c s = record s { messages = (mark_conversation_read c s.messages).1 }
