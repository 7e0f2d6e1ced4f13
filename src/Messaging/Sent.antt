-- ===== src/Messaging/Sent.antt =====
-- `sendText` of src/services/messaging.ts: what it leaves in the table, and what leaves the device.
use nuco_messenger.Call.Types.{outgoing}
use nuco_messenger.Db.Contacts.{get_contact_by_handle}
use nuco_messenger.Db.Conversations.{Conversation, ensure_conversation}
use nuco_messenger.Db.Messages.{
  Message, MessageStatus, Messages, get_message, insert_message, is_message, sending, sent, text,
  undelivered, update_message_status,
}
use nuco_messenger.Images.Receive.{expiry_for, sealed_or_plain}
use nuco_messenger.Messaging.Gate.{may_send, send_content, wake_hint_for}
use nuco_messenger.Messaging.Sending.{begin_text, quoted, send_text, settle_send, status_after}
use nuco_messenger.Messaging.Store.{Outgoing, Store, World, alert, text_content}
use nuco_messenger.Prelude.{
  Bool, Bool-cases, List, Option, String, [], ap, arith, eq_refl, false, if◌then◌else◌, inl, inr,
  is_some, ltb, none, refl, some, str_eq, suc, true, ℕ, ◌&&◌, ◌*◌, ◌++◌, ◌+◌, ◌∙◌, ◌∷◌, ◌≡◌, ◌⊎◌,
}
use nuco_messenger.Prelude.Rows.{exists_row, first_row, modify}

module _ {ℓ} {A : Type ℓ} where
  -- A row of a new key at the end, updated by its key.
  first-modify-append :
      (p : A → Bool) (f : A → A) (x : A) (xs : List A)
      → exists_row p xs ≡ false
      → p x ≡ true
      → p (f x) ≡ true
      → first_row p (modify p f (xs ++ x ∷ [])) ≡ some (f x)
  unfolding first_row modify exists_row
  first-modify-append p f x [] new e same = rw (e, same) refl
  first-modify-append p f x (y ∷ ys) new e same = ground (arith, new, first-modify-append p f x ys)

  first_other-modify-append :
      (p q : A → Bool) (f : A → A) (x : A) (xs : List A)
      → exists_row p xs ≡ false
      → p x ≡ true
      → q (f x) ≡ false
      → first_row q (modify p f (xs ++ x ∷ [])) ≡ first_row q xs
  unfolding first_row modify exists_row
  first_other-modify-append p q f x [] new e apart = rw (e, apart) refl
  first_other-modify-append p q f x (y ∷ ys) new e apart =
      ground (arith, new, first_other-modify-append p q f x ys)

-- A row that is stored under a new id and then gets its status.
stored_then_settled :
    (m : Message) (status : MessageStatus) (t : Messages)
    → exists_row (is_message m.id) t ≡ false
    → let u = update_message_status m.id status (insert_message m t) in
      (get_message m.id u ≡ some (record m { message_status = status }))
      × ((k : String) → str_eq m.id k ≡ false → get_message k u ≡ get_message k t)
unfolding update_message_status insert_message get_message
stored_then_settled m status t new =
    let settle = λ (n : Message). record n { message_status = status } in
    let own = eq_refl m.id in
    rw (update_message_status, insert_message, new)
      (
        first-modify-append (is_message m.id) settle m t new own own,
        λ k apart.
            first_other-modify-append (is_message m.id) (is_message k) settle m t new own apart,
      )

module _ (w : World) (c handle body : String) (retention : ℕ) (reply : Option String) (now : ℕ)
    (s : Store) where
  -- The id that is drawn, and the conversation.
  abbrev pub drawn_key : String
  drawn_key = w.fresh_id s.draws

  abbrev pub its_conversation : Conversation
  its_conversation = (ensure_conversation c c retention now s.conversations).0

  -- The row of a text with this stored body, sealing and status.
  abbrev pub text_row : String → Option String → MessageStatus → Message
  text_row stored sealing status = record {
    id = drawn_key;
    conversation_id = c;
    direction = outgoing;
    kind = text;
    body = some stored;
    meta = sealing;
    message_status = status;
    sent_at = now;
    expires_at = if ltb 0 retention then some (now + retention * 1000) else none;
    read = true;
    reply_to_id = reply;
    media_meta = none;
  }

  -- Both sides have confirmed the contact with the handle.
  abbrev pub passes : Bool
  passes = elim (get_contact_by_handle handle s.contacts) [
    | none ↦ false
    | some r ↦ is_some r.local_confirmed_at && is_some r.peer_confirmed_at
  ]

  abbrev pub its_envelope : Outgoing
  its_envelope = record {
    handle = handle;
    content = text_content body (quoted reply);
    id = drawn_key;
    sent_at = now;
    wake = alert;
  }

  abbrev pub its_status : MessageStatus
  its_status =
      if passes
      then (elim (w.net its_envelope) [ none ↦ sent | some e ↦ undelivered ])
      else undelivered

  -- What the row stores: in a chat locked with a public key the body that the cipher seals, with its
  -- parameters, and otherwise the plain body.
  abbrev pub IsStored : Option Message → Type 0
  IsStored found =
      ((pubkey : String)
        → its_conversation.lock_enabled ≡ true
        → its_conversation.lock_pubkey ≡ some pubkey
        → let (sealed, sealing) = w.ciphers.seal_body (suc s.draws) body pubkey c drawn_key in
          found ≡ some (text_row sealed (some sealing) its_status))
      × ((its_conversation.lock_enabled ≡ false) ⊎ (its_conversation.lock_pubkey ≡ none)
          → found ≡ some (text_row body none its_status))

  built : Message
  built =
      let (stored, sealing) =
        sealed_or_plain w.ciphers (suc s.draws) its_conversation.lock_enabled
          its_conversation.lock_pubkey c drawn_key body in
      text_row stored sealing its_status

  locked_row :
      (pubkey : String)
      → its_conversation.lock_enabled ≡ true
      → its_conversation.lock_pubkey ≡ some pubkey
      → let (sealed, sealing) = w.ciphers.seal_body (suc s.draws) body pubkey c drawn_key in
        built ≡ text_row sealed (some sealing) its_status
  unfolding built
  locked_row pubkey on key = rw (on, key) refl

  open_row :
      (its_conversation.lock_enabled ≡ false) ⊎ (its_conversation.lock_pubkey ≡ none)
      → built ≡ text_row body none its_status
  unfolding built
  open_row (inl off) = rw off refl
  open_row (inr bare) = elim (Bool-cases its_conversation.lock_enabled) [
    | inl on ↦ rw (on, bare) refl
    | inr off ↦ rw off refl
  ]

  text_leaves :
      exists_row (is_message drawn_key) s.messages ≡ false
      → let d = send_text w c handle body retention reply now s in
        (get_message drawn_key d.messages ≡ some built)
        × ((k : String)
            → str_eq drawn_key k ≡ false
            → get_message k d.messages ≡ get_message k s.messages)
        × (d.wire ≡ (if passes then its_envelope ∷ s.wire else s.wire))
  unfolding send_text begin_text send_content settle_send may_send wake_hint_for expiry_for built
  text_leaves new =
      let row = λ (status : MessageStatus).
        stored_then_settled (record built { message_status = sending }) status s.messages new in
      elim (Bool-cases passes) [
        | inl g ↦
            let (own, others) = row (status_after (w.net its_envelope)) in
            rw (send_text, send_content, g) (own, others, refl)
        | inr g ↦
            let (own, others) = row undelivered in
            rw (send_text, send_content, g) (own, others, refl)
      ]

  -- If the id that is drawn is new, the text of a contact has one row afterwards, with the body that the
  -- cipher seals if the chat is locked with a public key, and the plain body if it is not; the row is sent
  -- if both sides have confirmed the contact and the transport takes the text, and else has failed; the
  -- other ids find the rows they found before; and the plain text goes to the transport, under the row's
  -- id, if both sides have confirmed the contact, and nothing does otherwise.
  pub send_text_lem :
      exists_row (is_message drawn_key) s.messages ≡ false
      → let d = send_text w c handle body retention reply now s in
        IsStored (get_message drawn_key d.messages)
        × ((k : String)
            → str_eq drawn_key k ≡ false
            → get_message k d.messages ≡ get_message k s.messages)
        × (d.wire ≡ (if passes then its_envelope ∷ s.wire else s.wire))
  send_text_lem new =
      let (own, others, wire) = text_leaves new in
      (
        (
          λ pubkey on key. own ∙ ap some (locked_row pubkey on key),
          λ open_one. own ∙ ap some (open_row open_one),
        ),
        others,
        wire,
      )
