-- ===== src/Db/Messages.antt =====
-- src/db/repos/messages.ts: the messages table, its inserts, updates and deletes.
use nuco_messenger.Call.Types.{Direction, RowKind, incoming, outgoing}
use nuco_messenger.Prelude.{
  Bool, List, Option, String, [], false, if◌then◌else◌, is_some, ltb, none, not, some, str_eq, true,
  ℕ, ◌&&◌, ◌++◌, ◌∷◌,
}
use nuco_messenger.Prelude.Rows.{
  count_rows, discard, exists_row, first_row, modify, select, sort_by, take,
}

-- `MessageStatus`.
pub data MessageStatus : Type 0 where
  sending sent delivered undelivered : MessageStatus

-- `MessageKind`; the four call kinds are those of the call rows.
pub data MessageKind : Type 0 where
  text image : MessageKind
  retention_request retention_changed retention_declined retention_canceled : MessageKind
  screenshot_request screenshot_changed screenshot_declined screenshot_canceled : MessageKind
  call_row : RowKind → MessageKind
  verified name_changed identity_changed security_upgrade : MessageKind

pub record Message : Type 0 where
  pub id : String
  pub conversation_id : String
  pub direction : Direction
  pub kind : MessageKind
  pub body : Option String
  pub meta : Option String
  pub message_status : MessageStatus
  pub sent_at : ℕ
  pub expires_at : Option ℕ
  pub read : Bool
  pub reply_to_id : Option String
  pub media_meta : Option String

abbrev pub Messages : Type 0
Messages = List Message

abbrev pub is_message : String → Message → Bool
is_message key m = str_eq m.id key

-- `INSERT OR IGNORE` on the primary key.
unfoldable pub insert_message : Message → Messages → Messages
insert_message m t = if exists_row (is_message m.id) t then t else t ++ m ∷ []

unfoldable pub get_message : String → Messages → Option Message
get_message key t = first_row (is_message key) t

unfoldable pub delete_message : String → Messages → Messages
delete_message key t = discard (is_message key) t

abbrev pub is_inbound : Direction → Bool
is_inbound incoming = true
is_inbound outgoing = false

-- `kind IN ('text', 'image')`.
abbrev pub is_content : MessageKind → Bool
is_content text = true
is_content image = true
is_content _ = false

abbrev pub in_conversation : String → Message → Bool
in_conversation c m = str_eq m.conversation_id c

unfoldable pub is_peer_authored : String → String → Message → Bool
is_peer_authored key c m =
    is_message key m && in_conversation c m && is_inbound m.direction && is_content m.kind

-- `deletePeerAuthoredMessage`, with the number of rows it deletes.
unfoldable pub delete_peer_authored : String → String → Messages → ℕ × Messages
unfolding is_peer_authored
delete_peer_authored key c t =
    (count_rows (is_peer_authored key c) t, discard (is_peer_authored key c) t)

abbrev pub with_body : String → Option String → Message → Message
with_body new_body sealing m = record m { body = some new_body; meta = sealing }

unfoldable pub update_message_body : String → String → Option String → Messages → Messages
update_message_body key new_body sealing t = modify (is_message key) (with_body new_body sealing) t

-- A row that the seal pass has still to seal.
unfoldable pub is_sealable : String → Message → Bool
is_sealable c m = in_conversation c m && is_content m.kind && not (is_some m.meta) && is_some m.body

unfoldable pub list_sealable_plaintext : String → ℕ → Messages → Messages
unfolding is_sealable
list_sealable_plaintext c limit t = take limit (sort_by (λ m. m.sent_at) (select (is_sealable c) t))

unfoldable pub is_sealed_row : String → Message → Bool
is_sealed_row c m = in_conversation c m && is_some m.meta

unfoldable pub list_sealed_rows : String → ℕ → Messages → Messages
unfolding is_sealed_row
list_sealed_rows c limit t = take limit (sort_by (λ m. m.sent_at) (select (is_sealed_row c) t))

unfoldable pub list_messages : String → Messages → Messages
list_messages c t = sort_by (λ m. m.sent_at) (select (in_conversation c) t)

unfoldable pub update_message_status : String → MessageStatus → Messages → Messages
update_message_status key status t =
    modify (is_message key) (λ m. record m { message_status = status }) t

unfoldable pub is_unread : String → Message → Bool
is_unread c m = in_conversation c m && is_inbound m.direction && not m.read

abbrev pub mark_read : Message → Message
mark_read m = record m { read = true }

-- `markConversationRead`, with the number of rows it changes.
unfoldable pub mark_conversation_read : String → Messages → ℕ × Messages
unfolding is_unread
mark_conversation_read c t = (count_rows (is_unread c) t, modify (is_unread c) mark_read t)

unfoldable pub delete_conversation_messages : String → Messages → Messages
delete_conversation_messages c t = discard (in_conversation c) t

unfoldable pub is_expired : ℕ → Message → Bool
is_expired now m = elim m.expires_at [ none ↦ false | some at ↦ ltb at now ]

-- `sweepExpired`, with the number of rows it deletes.
unfoldable pub sweep_expired : ℕ → Messages → ℕ × Messages
unfolding is_expired
sweep_expired now t = (count_rows (is_expired now) t, discard (is_expired now) t)
