-- ===== src/Messaging/SendingImages.antt =====
-- src/services/messaging.ts: `sendImage`, `sendImageEnvelopes` and `resendImage`.
use Prim.Native.String.{◌++◌ as join}
use nuco_messenger.Db.Conversations.{ensure_conversation}
use nuco_messenger.Db.Messages.{image, insert_message}
use nuco_messenger.Images.Codec.{chunk_count_for, raw_bytes_of_b64, split_b64}
use nuco_messenger.Images.Receive.{expiry_for, sealed_or_plain}
use nuco_messenger.Messaging.Gate.{send_content}
use nuco_messenger.Messaging.Sending.{ensured_for, outgoing_row, settle_send}
use nuco_messenger.Messaging.Store.{
  Announcement, PreparedImage, Store, World, draw, image_chunk, image_content,
}
use nuco_messenger.Prelude.{List, Option, String, [], if◌then◌else◌, none, some, suc, ℕ, ◌==◌, ◌∷◌}

-- `buildImageMeta`; `raw` is IMAGE_CHUNK_RAW_BYTES.
unfoldable pub build_image_meta : ℕ → PreparedImage → Announcement
unfolding chunk_count_for
build_image_meta raw p = record {
  mime = p.mime;
  width = p.width;
  height = p.height;
  bytes = p.bytes;
  sha256 = p.sha256;
  chunks = chunk_count_for raw p.bytes;
}

module _ (w : World) where
  -- `chunkEnvelopeId`.
  unfoldable pub chunk_envelope_id : String → ℕ → String
  chunk_envelope_id key n = join key (join "#" (w.print n))

  -- The loop over the slices: the first error stops it.
  unfoldable pub send_slices :
      String → String → ℕ → List (List ℕ) → ℕ → Store → Store × Option String
  unfolding send_content chunk_envelope_id
  send_slices handle key n [] now s = (s, none)
  send_slices handle key n (piece ∷ pieces) now s =
      let (handed, outcome) =
        send_content w now handle (image_chunk key n piece) (chunk_envelope_id key n) s in
      elim outcome [
        | some e ↦ (handed, some e)
        | none ↦ send_slices handle key (suc n) pieces now handed
      ]

  -- `sendImageEnvelopes`: the announcement, and then every chunk in order.
  unfoldable pub send_image_envelopes :
      String → String → PreparedImage → ℕ → Store → Store × Option String
  unfolding send_content send_slices split_b64 build_image_meta
  send_image_envelopes handle key p now s =
      let (handed, outcome) =
        send_content w now handle (image_content (build_image_meta w.raw_size p)) key s in
      elim outcome [
        | some e ↦ (handed, some e)
        | none ↦ send_slices handle key 0 (split_b64 w.slice_size p.body) now handed
      ]

  -- `sendImage` up to its await, with the id that it draws.
  unfoldable pub begin_image : String → PreparedImage → ℕ → ℕ → Store → String × Store
  unfolding ensure_conversation insert_message expiry_for
  begin_image c p retention now s =
      let (key, drawn) = draw w s in
      let (convo, ensured) = ensured_for w c retention now drawn in
      let (stored, sealing) =
        sealed_or_plain w.ciphers drawn.draws convo.lock_enabled convo.lock_pubkey c key
          (w.tools.text_of p.body) in
      (
        key,
        record ensured {
          draws = suc drawn.draws;
          messages =
              insert_message
                (outgoing_row key c image stored sealing none (some (w.layout_json p)) retention
                  now)
                ensured.messages;
        },
      )

  -- `sendImage` when nothing else happens before the transport answers.
  unfoldable pub send_image : String → String → PreparedImage → ℕ → ℕ → Store → Store
  unfolding begin_image send_image_envelopes settle_send
  send_image c handle p retention now s =
      let (key, begun) = begin_image c p retention now s in
      let (handed, outcome) = send_image_envelopes handle key p now begun in
      settle_send key outcome handed

  abbrev incomplete : String
  incomplete = "image row incomplete"

  -- The image of a stored row, with its size and its digest taken from the body: none where the layout
  -- or the body is not one of an image.
  unfoldable pub image_of_row : List ℕ → Option String → Option PreparedImage
  unfolding raw_bytes_of_b64
  image_of_row body layout = elim (w.parse_media_meta layout) [
    | none ↦ none
    | some p ↦ elim (raw_bytes_of_b64 body) [
      | none ↦ none
      | some n ↦
          if n == 0
          then none
          else some (record p { body = body; bytes = n; sha256 = w.tools.digest body })
    ]
  ]

  -- `resendImage`.
  unfoldable pub resend_image :
      String → String → List ℕ → Option String → ℕ → Store → Store × Option String
  unfolding image_of_row send_image_envelopes
  resend_image handle key body layout now s = elim (image_of_row body layout) [
    | none ↦ (s, some incomplete)
    | some p ↦ send_image_envelopes handle key p now s
  ]
