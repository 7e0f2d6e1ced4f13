-- ===== src/Messaging/Statuses.antt =====
-- The loop of `resendPendingOutbound` of src/services/messaging.ts: the status that it leaves a row.
use nuco_messenger.Db.Contacts.{Contacts, get_contact_by_handle}
use nuco_messenger.Db.Messages.{
  Message, MessageKind, MessageStatus, Messages, get_message, image, is_message,
  update_message_status,
}
use nuco_messenger.Db.Pending.{PendingOutbound}
use nuco_messenger.Images.Codec.{split_b64}
use nuco_messenger.Messaging.Gate.{is_confirm, is_verified_one, may_send, send_content}
use nuco_messenger.Messaging.Resending.{body_of, resend_row, resend_rows}
use nuco_messenger.Messaging.Resent.{named, resend_row-Kept, send_content-Kept}
use nuco_messenger.Messaging.Sending.{quoted, settle_send, status_after}
use nuco_messenger.Messaging.SendingImages.{
  build_image_meta, chunk_envelope_id, image_of_row, resend_image, send_image_envelopes,
  send_slices,
}
use nuco_messenger.Messaging.Store.{
  Content, PreparedImage, Store, World, image_chunk, image_content, text_content,
}
use nuco_messenger.Prelude.{
  Bool, Bool-cases, List, Option, Option-cases, String, [], ap, arith, eq_iff, false, if◌then◌else◌,
  inl, inr, refl, some, str_eq, suc, sym, true, ℕ, ◌||◌, ◌∙◌, ◌∷◌, ◌≡◌,
}
use nuco_messenger.Prelude.Rows.{Every, exists_row, first-modify, first_row, modify}

get-update_self :
    (k : String) (st : MessageStatus) (t : Messages) (x : Message)
    → get_message k t ≡ some x
    → get_message k (update_message_status k st t) ≡ some (record x { message_status = st })
unfolding get_message update_message_status
get-update_self k st t x e =
    first-modify (is_message k) (λ (m : Message). record m { message_status = st }) (λ m. refl) t x
      e

get-update_ne :
    (k j : String) (st : MessageStatus) (t : Messages)
    → str_eq k j ≡ false
    → get_message k (update_message_status j st t) ≡ get_message k t
unfolding get_message update_message_status first_row modify
get-update_ne k j st [] n = refl
get-update_ne k j st (m ∷ ms) n =
    ground (arith, n, eq_iff m.id k, eq_iff m.id j, eq_iff k j, get-update_ne k j st ms)

if_same : (b : Bool) (x : MessageStatus) → (if b then x else x) ≡ x
if_same true x = refl
if_same false x = refl

-- An entry of the list with the message's id is the message.
abbrev pub Agrees : String → Message → PendingOutbound → Type 0
Agrees a m p = str_eq m.id p.message.id ≡ true → (p.message ≡ m) × (p.handle ≡ a)

module _ (w : World) (now : ℕ) where
  -- What becomes of a send depends on the contacts alone, and on the transport.
  same-send_content :
      (handle : String) (content : Content) (key : String) (s d : Store)
      → d.contacts ≡ s.contacts
      → (send_content w now handle content key d).1 ≡ (send_content w now handle content key s).1
  unfolding send_content may_send
  same-send_content handle content key s d e =
      let same =
        ap
          (λ (t : Contacts). is_confirm content || is_verified_one (get_contact_by_handle handle t))
          e in
      elim (Bool-cases (may_send handle content s)) [
        | inl g ↦ rw (send_content, g, same ∙ g) refl
        | inr g ↦ rw (send_content, g, same ∙ g) refl
      ]

  same-send_slices :
      (handle key : String) (n : ℕ) (pieces : List (List ℕ)) (s d : Store)
      → d.contacts ≡ s.contacts
      → (send_slices w handle key n pieces now d).1 ≡ (send_slices w handle key n pieces now s).1
  unfolding send_slices
  same-send_slices handle key n [] s d e = refl
  same-send_slices handle key n (piece ∷ pieces) s d e =
      let one = image_chunk key n piece in
      let id = chunk_envelope_id w key n in
      let x = send_content w now handle one id s in
      let y = send_content w now handle one id d in
      let same = same-send_content handle one id s d e in
      elim (Option-cases x.1) [
        | inl r ↦
            rw (send_slices, r, same ∙ r)
              (same-send_slices handle key (suc n) pieces x.0 y.0 (
                (send_content-Kept w handle one id now d).1
                ∙ e
                ∙ sym (send_content-Kept w handle one id now s).1))
        | inr (err, r) ↦ rw (send_slices, r, same ∙ r) refl
      ]

  same-send_image_envelopes :
      (handle key : String) (p : PreparedImage) (s d : Store)
      → d.contacts ≡ s.contacts
      → (send_image_envelopes w handle key p now d).1
        ≡ (send_image_envelopes w handle key p now s).1
  unfolding send_image_envelopes
  same-send_image_envelopes handle key p s d e =
      let first = image_content (build_image_meta w.raw_size p) in
      let x = send_content w now handle first key s in
      let y = send_content w now handle first key d in
      let same = same-send_content handle first key s d e in
      elim (Option-cases x.1) [
        | inl r ↦
            rw (send_image_envelopes, r, same ∙ r)
              (same-send_slices handle key 0 (split_b64 w.slice_size p.body) x.0 y.0 (
                (send_content-Kept w handle first key now d).1
                ∙ e
                ∙ sym (send_content-Kept w handle first key now s).1))
        | inr (err, r) ↦ rw (send_image_envelopes, r, same ∙ r) refl
      ]

  -- The error of the resend of a message, if there is one.
  abbrev pub error_of : Store → String → Message → Option String
  error_of s a m = (resend_row w a m.id m.kind (body_of w m) m.reply_to_id m.media_meta now s).1

  same-resend_row :
      (handle key : String) (kind : MessageKind) (body : String) (reply layout : Option String)
      (s d : Store)
      → d.contacts ≡ s.contacts
      → (resend_row w handle key kind body reply layout now d).1
        ≡ (resend_row w handle key kind body reply layout now s).1
  unfolding resend_row resend_image
  same-resend_row handle key image body reply layout s d e =
      elim (Option-cases (image_of_row w (w.chars_of body) layout)) [
        | inl r ↦ rw (resend_row, resend_image, r) refl
        | inr (p, r) ↦
            rw (resend_row, resend_image, r) (same-send_image_envelopes handle key p s d e)
      ]
  same-resend_row handle key _ body reply layout s d e =
      same-send_content handle (text_content body (quoted reply)) key s d e

  -- The status that the resend of the message leaves.
  abbrev pub right_status : Store → String → Message → MessageStatus
  right_status s a m = status_after (error_of s a m)

  pub resend_rows-status :
      (a : String) (m : Message) (start s : Store) (ps : List PendingOutbound) (st : MessageStatus)
      → s.contacts ≡ start.contacts
      → Every (Agrees a m) ps
      → get_message m.id s.messages ≡ some (record m { message_status = st })
      → get_message m.id (resend_rows w ps now s).messages
        ≡ some (record m {
          message_status = if exists_row (named m.id) ps then right_status start a m else st;
        })
  unfolding resend_rows settle_send exists_row
  resend_rows-status a m start s [] st e agree found = found
  resend_rows-status a m start s (p ∷ ps) st e agree found =
      let q = p.message in
      let one = resend_row w p.handle q.id q.kind (body_of w q) q.reply_to_id q.media_meta now s in
      let (ms, cs) =
        resend_row-Kept w p.handle q.id q.kind (body_of w q) q.reply_to_id q.media_meta now s in
      let next = settle_send q.id one.1 one.0 in
      let before = ap (get_message m.id) ms ∙ found in
      elim (Bool-cases (str_eq m.id q.id)) [
        | inl i ↦
            let (is_m, is_a) = agree.0 i in
            let right = ap status_after (
              ap (λ (x : Message). error_of s p.handle x) is_m
              ∙ ap (λ h. error_of s h m) is_a
              ∙ same-resend_row a m.id m.kind (body_of w m) m.reply_to_id m.media_meta start s e) in
            let after =
              ap
                (λ k.
                  get_message m.id (update_message_status k (status_after one.1) one.0.messages))
                (ap (λ (x : Message). x.id) is_m)
              ∙ get-update_self m.id (status_after one.1) one.0.messages
                  (record m { message_status = st }) before
              ∙ ap (λ z. some (record m { message_status = z })) right in
            rw i (
              resend_rows-status a m start next ps (right_status start a m) (cs ∙ e) agree.1 after
              ∙ ap (λ z. some (record m { message_status = z }))
                  (if_same (exists_row (named m.id) ps) (right_status start a m)))
        | inr n ↦ rw n (
            resend_rows-status a m start next ps st (cs ∙ e) agree.1
              (get-update_ne m.id q.id (status_after one.1) one.0.messages n ∙ before))
      ]
