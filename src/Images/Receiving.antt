-- ===== src/Images/Receiving.antt =====
-- The received chunks of src/services/messaging.ts, from the first to the one that completes an image.
use nuco_messenger.Call.Types.{incoming}
use nuco_messenger.ChatLock.State.{Ciphers}
use nuco_messenger.Db.Conversations.{Conversation}
use nuco_messenger.Db.Messages.{Message, Messages, delivered, image, insert_message}
use nuco_messenger.Db.Transfers.{
  ImageTransfer, Staging, chunk_count, delete_transfer, drop_transfers, get_transfer, insert_chunk,
  is_transfer, list_chunk_data,
}
use nuco_messenger.Images.Codec.{assemble_and_verify, holds_size, join_chunks, raw_bytes_of_b64}
use nuco_messenger.Images.Receive.{
  ImageTools, Inbox, complete, expiry_for, image_row, receive_chunk, store_chunk,
}
use nuco_messenger.Messaging.Gated.{shown}
use nuco_messenger.Prelude.{
  ==_iff, Bool-cases, List, Option, Option-cases, String, [], arith, eq_iff, false, if◌then◌else◌,
  inl, inr, leb, ltb, none, not, refl, some, str_eq, subst, true, ℕ, ◌*◌, ◌+◌, ◌==◌, ◌||◌, ◌∙◌, ◌∷◌,
  ◌≡◌, ◌≤◌, ◌⊎◌,
}
use nuco_messenger.Prelude.Rows.{first-discard, first_row}

first-ref :
    (key : String) (ts : List ImageTransfer) (t : ImageTransfer)
    → first_row (is_transfer key) ts ≡ some t
    → t.ref ≡ key
unfolding first_row
first-ref key [] t e = cc
first-ref key (q ∷ qs) t e = ground (arith, eq_iff q.ref key, first-ref key qs t)

get_transfer-ref :
    (key : String) (s : Staging) (t : ImageTransfer) → get_transfer key s ≡ some t → t.ref ≡ key
unfolding get_transfer
get_transfer-ref key s t e = first-ref key s.transfers t e

-- The text is what the transfer announced.
abbrev pub IsAnnounced : ImageTools → ImageTransfer → List ℕ → Type 0
IsAnnounced tools t body =
    (raw_bytes_of_b64 body ≡ some t.bytes)
    × (1 ≤ t.bytes)
    × (t.bytes ≤ tools.most)
    × (tools.digest body ≡ t.sha256)

holds_size_lem : (o : Option ℕ) (n : ℕ) → holds_size o n ≡ true → o ≡ some n
holds_size_lem none n e = cc
holds_size_lem (some m) n e = ground (arith, ==_iff m n)

assemble-IsAnnounced :
    (tools : ImageTools) (t : ImageTransfer) (chunks : List (List ℕ)) (body : List ℕ)
    → assemble_and_verify tools.digest tools.most chunks t.bytes t.sha256 ≡ some body
    → IsAnnounced tools t body × (body ≡ join_chunks chunks)
unfolding assemble_and_verify
assemble-IsAnnounced tools t chunks body e = ground (
  arith,
  holds_size_lem (raw_bytes_of_b64 (join_chunks chunks)) t.bytes,
  eq_iff (tools.digest (join_chunks chunks)) t.sha256,
)

get-delete_transfer : (key : String) (s : Staging) → get_transfer key (delete_transfer key s) ≡ none
unfolding get_transfer delete_transfer drop_transfers
get-delete_transfer key s = first-discard (is_transfer key) s.transfers

module _ (tools : ImageTools) (ciphers : Ciphers) (seed now : ℕ) (convo : Conversation)
    (contact : String) where
  -- The message row of a received image with this stored text and sealing.
  abbrev pub shown_row : ImageTransfer → String → Option String → Message
  shown_row t stored sealing = record {
    id = t.ref;
    conversation_id = contact;
    direction = incoming;
    kind = image;
    body = some stored;
    meta = sealing;
    message_status = delivered;
    sent_at = t.sent_at;
    expires_at =
        if ltb 0 convo.retention_seconds then some (now + convo.retention_seconds * 1000) else none;
    read = false;
    reply_to_id = none;
    media_meta = some (tools.layout_of t);
  }

  -- The row that was added has the text of the body, sealed in a chat locked with a public key.
  abbrev pub Adds : ImageTransfer → List ℕ → Messages → Messages → Type 0
  Adds t body before after =
      ((pubkey : String)
        → convo.lock_enabled ≡ true
        → convo.lock_pubkey ≡ some pubkey
        → let (sealed, sealing) =
            ciphers.seal_body seed (tools.text_of body) pubkey contact t.ref in
          after ≡ insert_message (shown_row t sealed (some sealing)) before)
      × ((convo.lock_enabled ≡ false) ⊎ (convo.lock_pubkey ≡ none)
          → after ≡ insert_message (shown_row t (tools.text_of body) none) before)

  abbrev pub Shows : String → Inbox → Inbox → Type 0
  Shows key s d =
      (t : ImageTransfer) × (body : List ℕ) × (get_transfer key s.staging ≡ some t)
      × (t.conversation_id ≡ contact)
      × IsAnnounced tools t body
      × Adds t body s.messages d.messages
      × (get_transfer key d.staging ≡ none)

  image_row-Adds :
      (t : ImageTransfer) (body : List ℕ) (before after : Messages)
      → after ≡ insert_message (image_row tools ciphers seed now convo contact t body) before
      → Adds t body before after
  unfolding image_row expiry_for
  image_row-Adds t body before after e = (
    λ pubkey on key. e ∙ rw (on, key) refl,
    λ open_one. e ∙ elim open_one [
      | inl off ↦ rw off refl
      | inr bare ↦ elim (Bool-cases convo.lock_enabled) [
        | inl on ↦ rw (on, bare) refl
        | inr off ↦ rw off refl
      ]
    ],
  )

  complete_lem :
      (t : ImageTransfer) (s : Inbox)
      → let d = complete tools ciphers seed now convo contact t s in
        (d.messages ≡ s.messages)
        ⊎ ((body : List ℕ) × IsAnnounced tools t body
            × (d.messages
                ≡ insert_message (image_row tools ciphers seed now convo contact t body) s.messages)
            × (get_transfer t.ref d.staging ≡ none))
  unfolding complete
  complete_lem t s =
      elim (Option-cases (
        assemble_and_verify tools.digest tools.most (list_chunk_data t.ref s.staging) t.bytes
          t.sha256)) [
            | inl e ↦ inl (rw (e, complete) refl)
            | inr (body, e) ↦ inr (
              body,
              (assemble-IsAnnounced tools t _ body e).0,
              rw (e, complete) refl,
              get-delete_transfer t.ref s.staging,
            )
          ]

  store_chunk_lem :
      (t : ImageTransfer) (n : ℕ) (data_in : List ℕ) (s : Inbox)
      → let d = store_chunk tools ciphers seed now convo contact t n data_in s in
        (d.messages ≡ s.messages)
        ⊎ ((body : List ℕ) × IsAnnounced tools t body
            × (d.messages
                ≡ insert_message (image_row tools ciphers seed now convo contact t body) s.messages)
            × (get_transfer t.ref d.staging ≡ none))
  unfolding store_chunk
  store_chunk_lem t n data_in s =
      let stored = record s { staging = insert_chunk t.ref n data_in s.staging } in
      elim (Bool-cases (chunk_count t.ref stored.staging == t.chunks_total)) [
        | inl full ↦ rw (full, store_chunk) (complete_lem t stored)
        | inr room ↦ inl (rw (room, store_chunk) refl)
      ]

  -- A chunk for a ref with no transfer, or with the transfer of another conversation, changes nothing.
  -- Any other chunk leaves the messages as they are, or completes its transfer: then it adds the one
  -- unread, incoming image row, of the sender's conversation, unless a row has its id already; the row
  -- stores a text, sealed in a chat locked with a public key, that has the size and the digest that were
  -- announced; and the transfer is gone.
  pub receive_chunk_lem :
      (key : String) (n : ℕ) (body : List ℕ) (s : Inbox)
      → let d = receive_chunk tools ciphers seed now convo contact key n body s in
        (get_transfer key s.staging ≡ none → d ≡ s)
        × ((t : ImageTransfer)
            → get_transfer key s.staging ≡ some t
            → str_eq t.conversation_id contact ≡ false
            → d ≡ s)
        × ((d.messages ≡ s.messages) ⊎ Shows key s d)
  unfolding receive_chunk
  receive_chunk_lem key n body s = (
    λ e. rw (e, receive_chunk) refl,
    λ t e f. rw (e, receive_chunk, f) refl,
    elim (Option-cases (get_transfer key s.staging)) [
      | inl e ↦ inl (rw (e, receive_chunk) refl)
      | inr (t, e) ↦
          elim (Bool-cases (not (str_eq t.conversation_id contact) || leb t.chunks_total n)) [
            | inl skip ↦ inl (rw (e, receive_chunk, skip) refl)
            | inr go ↦
                rw (e, receive_chunk, go)
                  (elim (store_chunk_lem t n body s) [
                    | inl same ↦ inl same
                    | inr (whole, announced, shown, gone_now) ↦ inr (
                      t,
                      whole,
                      refl,
                      ground (arith, eq_iff t.conversation_id contact),
                      announced,
                      image_row-Adds t whole s.messages
                          (store_chunk tools ciphers seed now convo contact t n body s).messages
                          shown,
                      subst
                          (λ k.
                            get_transfer k
                              (store_chunk tools ciphers seed now convo contact t n body s).staging
                            ≡ none)
                          (get_transfer-ref key s.staging t e) gone_now,
                    )
                  ])
          ]
    ],
  )
