-- ===== src/Images/Receive.antt =====
-- src/services/messaging.ts: how an announced image comes in, chunk by chunk (the branches `image` and
-- `image/chunk` of `doReceiveEnvelope`).
use nuco_messenger.Call.Types.{incoming}
use nuco_messenger.ChatLock.State.{Ciphers}
use nuco_messenger.Db.Conversations.{Conversation}
use nuco_messenger.Db.Messages.{Message, Messages, delivered, get_message, image, insert_message}
use nuco_messenger.Db.Transfers.{
  ImageTransfer, Staging, chunk_count, create_transfer, delete_transfer, get_transfer, insert_chunk,
  list_chunk_data,
}
use nuco_messenger.Images.Codec.{assemble_and_verify}
use nuco_messenger.Prelude.{
  Bool, List, Option, String, false, if◌then◌else◌, leb, ltb, none, not, some, str_eq, true, ℕ, ◌*◌,
  ◌+◌, ◌==◌, ◌||◌,
}

-- What the branches take from other code: the digest of a text, the protocol's largest size, a text as
-- a String, and the layout JSON of a transfer.
pub record ImageTools : Type 0 where
  pub digest : List ℕ → String
  pub most : ℕ
  pub text_of : List ℕ → String
  pub layout_of : ImageTransfer → String

pub record Inbox : Type 0 where
  pub staging : Staging
  pub messages : Messages

-- `expiryFor`.
unfoldable pub expiry_for : ℕ → ℕ → Option ℕ
expiry_for retention now = if ltb 0 retention then some (now + retention * 1000) else none

-- The branch `image`; `t` is the transfer that the announcement describes.
unfoldable pub receive_image : ImageTransfer → Inbox → Inbox
receive_image t s = elim (get_message t.ref s.messages) [
  | some m ↦ s
  | none ↦ record s { staging = create_transfer t s.staging }
]

-- In a locked chat the body is sealed with the chat's public key.
abbrev pub sealed_or_plain :
    Ciphers → ℕ → Bool → Option String → String → String → String → String × Option String
sealed_or_plain ciphers seed true (some pubkey) c key body =
    let (b, sealing) = ciphers.seal_body seed body pubkey c key in (b, some sealing)
sealed_or_plain ciphers seed _ _ c key body = (body, none)

module _ (tools : ImageTools) (ciphers : Ciphers) (seed now : ℕ) (convo : Conversation)
    (contact : String) where
  -- The message row of an assembled image.
  unfoldable pub image_row : ImageTransfer → List ℕ → Message
  image_row t body =
      let (b, sealing) =
        sealed_or_plain ciphers seed convo.lock_enabled convo.lock_pubkey contact t.ref
          (tools.text_of body) in
      record {
        id = t.ref;
        conversation_id = contact;
        direction = incoming;
        kind = image;
        body = some b;
        meta = sealing;
        message_status = delivered;
        sent_at = t.sent_at;
        expires_at = expiry_for convo.retention_seconds now;
        read = false;
        reply_to_id = none;
        media_meta = some (tools.layout_of t);
      }

  -- The last chunk is in.
  unfoldable pub complete : ImageTransfer → Inbox → Inbox
  unfolding image_row
  complete t s = record {
    staging = delete_transfer t.ref s.staging;
    messages =
        elim (assemble_and_verify tools.digest tools.most (list_chunk_data t.ref s.staging) t.bytes
          t.sha256) [
            | none ↦ s.messages
            | some body ↦ insert_message (image_row t body) s.messages
          ];
  }

  unfoldable pub store_chunk : ImageTransfer → ℕ → List ℕ → Inbox → Inbox
  unfolding complete
  store_chunk t n body s =
      let stored = record s { staging = insert_chunk t.ref n body s.staging } in
      if chunk_count t.ref stored.staging == t.chunks_total then complete t stored else stored

  -- The branch `image/chunk`.
  unfoldable pub receive_chunk : String → ℕ → List ℕ → Inbox → Inbox
  unfolding store_chunk
  receive_chunk key n body s = elim (get_transfer key s.staging) [
    | none ↦ s
    | some t ↦
        if not (str_eq t.conversation_id contact) || leb t.chunks_total n
        then s
        else store_chunk t n body s
  ]
