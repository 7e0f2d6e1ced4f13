-- ===== src/Messaging/Outcomes.antt =====
-- `resendPendingOutbound` of src/services/messaging.ts: the status of each message that it sends again.
use nuco_messenger.Db.Contacts.{get_contact_by_handle}
use nuco_messenger.Db.Integrity.{IsKeyed}
use nuco_messenger.Db.Messages.{
  Message, MessageKind, MessageStatus, Messages, get_message, image, is_message, sent, text,
  undelivered,
}
use nuco_messenger.Db.Newest.{found_by_id, same_row}
use nuco_messenger.Db.Pending.{
  PendingOutbound, is_pending_plain, join_handles, list_pending_outbound,
}
use nuco_messenger.Messaging.Gate.{may_send, send_content, wake_hint_for}
use nuco_messenger.Messaging.Resending.{
  body_of, handle_of, resend_pending_outbound, resend_row, resend_rows,
}
use nuco_messenger.Messaging.Resent.{Left, listed-Left, resend_pending_outbound_lem}
use nuco_messenger.Messaging.Sending.{quoted, status_after}
use nuco_messenger.Messaging.SendingImages.{image_of_row, resend_image, send_image_envelopes}
use nuco_messenger.Messaging.Statuses.{Agrees, error_of, resend_rows-status, right_status}
use nuco_messenger.Messaging.Store.{Outgoing, Store, World, alert, text_content}
use nuco_messenger.Prelude.{
  Bool, Bool-cases, Option, Option-cases, String, [], ap, arith, eq_iff, false, if◌then◌else◌, inl,
  inr, is_some, none, refl, some, subst, true, ℕ, ◌&&◌, ◌∙◌, ◌∷◌, ◌≡◌,
}
use nuco_messenger.Prelude.Batches.{Every-weaken, select-Every, sort_by-Every}
use nuco_messenger.Prelude.Rows.{Every, first_row, select, sort_by}

join-Every {κ} :
    (h : String → Option String) (P : PendingOutbound → Type κ) (ms : Messages)
    → Every
        (λ m. (a : String) → h m.conversation_id ≡ some a → P (record { message = m; handle = a }))
        ms
    → Every P (join_handles h ms)
unfolding join_handles
join-Every h P [] l = tt
join-Every h P (m ∷ ms) l = elim (Option-cases (h m.conversation_id)) [
  | inl e ↦ rw (e, join_handles) (join-Every h P ms l.1)
  | inr (a, e) ↦ rw (e, join_handles) (l.0 a e, join-Every h P ms l.1)
]

listed-Agrees :
    (h : String → Option String) (a : String) (m : Message) (t : Messages)
    → IsKeyed t
    → get_message m.id t ≡ some m
    → h m.conversation_id ≡ some a
    → Every (Agrees a m) (list_pending_outbound h t)
unfolding list_pending_outbound
listed-Agrees h a m t keyed own e =
    join-Every h (Agrees a m) (sort_by (λ m. m.sent_at) (select is_pending_plain t)) (
      sort_by-Every
        (λ n.
          (b : String)
          → h n.conversation_id ≡ some b
          → Agrees a m (record { message = n; handle = b }))
        (λ m. m.sent_at) (select is_pending_plain t)
        (select-Every
          (λ n.
            (b : String)
            → h n.conversation_id ≡ some b
            → Agrees a m (record { message = n; handle = b }))
          is_pending_plain t (Every-weaken agree t (found_by_id t keyed))))
  where
    agree :
        (n : Message)
        → get_message n.id t ≡ some n
        → (b : String) → h n.conversation_id ≡ some b
        → Agrees a m (record { message = n; handle = b })
    agree n found b f i =
        let same = same_row n m t found own (ground (arith, i, eq_iff m.id n.id)) in
        (same, cc (f, e, same))

-- Both sides have confirmed the contact with the handle.
abbrev pub is_confirmed : Store → String → Bool
is_confirmed s a = elim (get_contact_by_handle a s.contacts) [
  | none ↦ false
  | some r ↦ is_some r.local_confirmed_at && is_some r.peer_confirmed_at
]

module _ (w : World) (now : ℕ) (s : Store) (a : String) where
  unconfirmed_fails :
      (key : String) (kind : MessageKind) (body : String) (reply layout : Option String)
      → is_confirmed s a ≡ false
      → status_after (resend_row w a key kind body reply layout now s).1 ≡ undelivered
  unfolding resend_row resend_image send_image_envelopes send_content may_send
  unconfirmed_fails key image body reply layout g =
      elim (Option-cases (image_of_row w (w.chars_of body) layout)) [
        | inl r ↦ rw (resend_row, resend_image, r) refl
        | inr (p, r) ↦ rw (resend_row, resend_image, send_image_envelopes, send_content, r, g) refl
      ]
  unconfirmed_fails key _ body reply layout g = rw (send_content, g) refl

  abbrev pub text_envelope : Message → Outgoing
  text_envelope m = record {
    handle = a;
    content = text_content (body_of w m) (quoted m.reply_to_id);
    id = m.id;
    sent_at = now;
    wake = alert;
  }

  -- What becomes of a text.
  abbrev pub text_status : Message → MessageStatus
  text_status m =
      if is_confirmed s a
      then (elim (w.net (text_envelope m)) [ none ↦ sent | some e ↦ undelivered ])
      else undelivered

  text_goes_out :
      (key body : String) (reply layout : Option String) (rest : Outgoing)
      → rest ≡ record {
        handle = a;
        content = text_content body (quoted reply);
        id = key;
        sent_at = now;
        wake = alert;
      }
      → status_after (resend_row w a key text body reply layout now s).1 ≡ (
          if is_confirmed s a
          then (elim (w.net rest) [ none ↦ sent | some e ↦ undelivered ])
          else undelivered)
  unfolding resend_row send_content may_send wake_hint_for
  text_goes_out key body reply layout rest same = elim (Bool-cases (is_confirmed s a)) [
    | inl g ↦ rw (send_content, g, same) refl
    | inr g ↦ rw (send_content, g) refl
  ]

  text_outcome : (m : Message) → m.kind ≡ text → right_status w now s a m ≡ text_status m
  text_outcome m k =
      ap
        (λ kind.
          status_after (resend_row w a m.id kind (body_of w m) m.reply_to_id m.media_meta now s).1)
        k
      ∙ text_goes_out m.id (body_of w m) m.reply_to_id m.media_meta (text_envelope m) refl

-- What holds of every row holds of the row with the id.
found-Every {κ} :
    (P : Message → Type κ) (k : String) (m : Message) (t : Messages)
    → Every P t
    → get_message k t ≡ some m
    → P m
unfolding get_message first_row
found-Every P k m [] l e = absurd (cc e)
found-Every P k m (n ∷ ns) l e = elim (Bool-cases (is_message k n)) [
  | inl i ↦ subst P (ground (arith, i, e)) l.0
  | inr i ↦ found-Every P k m ns l.1 (ground (arith, i, e))
]

-- While the app is unlocked, and with distinct ids, resendPendingOutbound leaves a message that was left
-- sending without a seal, with a body, as text or image, to a contact that exists, with its other columns
-- as they were, as sent if its resend gives no error and as failed if it does: a text as sent exactly if
-- both sides have confirmed the contact and the transport takes the text, under the id that it had, and
-- a text or an image as failed if they have not. Nothing is left to be listed for a resend.
pub resend_outcome_lem :
    (w : World) (now : ℕ) (s : Store) (m : Message) (a : String)
    → s.is_unlocked ≡ true
    → IsKeyed s.messages
    → get_message m.id s.messages ≡ some m
    → is_pending_plain m ≡ true
    → handle_of s m.conversation_id ≡ some a
    → let d = resend_pending_outbound w now s in
      let EndsAs = λ (status : MessageStatus).
        get_message m.id d.messages ≡ some (record m { message_status = status }) in
      (error_of w now s a m ≡ none → EndsAs sent)
      × ((e : String) → error_of w now s a m ≡ some e → EndsAs undelivered)
      × (m.kind ≡ text → EndsAs (text_status w now s a m))
      × (is_confirmed s a ≡ false → EndsAs undelivered)
      × (list_pending_outbound (handle_of d) d.messages ≡ [])
unfolding resend_pending_outbound Left
resend_outcome_lem w now s m a u keyed own pending e =
    let rows = list_pending_outbound (handle_of s) s.messages in
    let ran : resend_pending_outbound w now s ≡ resend_rows w rows now s = rw u refl in
    let there =
      found-Every (Left (handle_of s) rows) m.id m s.messages (listed-Left (handle_of s) s.messages)
        own pending (ap is_some e) in
    let left =
      ap (λ (d : Store). get_message m.id d.messages) ran
      ∙ resend_rows-status w now a m s s rows m.message_status refl
          (listed-Agrees (handle_of s) a m s.messages keyed own e) own in
    let with_status = λ (z : MessageStatus). some (record m { message_status = z }) in
    let right =
      left
      ∙ ap (λ b. with_status (if b then right_status w now s a m else m.message_status)) there in
    (
      λ r. right ∙ ap (λ o. with_status (status_after o)) r,
      λ x r. right ∙ ap (λ o. with_status (status_after o)) r,
      λ k. right ∙ ap with_status (text_outcome w now s a m k),
      λ g.
          right
          ∙ ap with_status
              (unconfirmed_fails w now s a m.id m.kind (body_of w m) m.reply_to_id m.media_meta g),
      resend_pending_outbound_lem w now s u,
    )
