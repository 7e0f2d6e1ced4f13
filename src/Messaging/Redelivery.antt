-- ===== src/Messaging/Redelivery.antt =====
-- Envelopes that the relay delivers a second time to src/services/messaging.ts.
use nuco_messenger.Db.Contacts.{ContactRow, Contacts, is_mutually_verified}
use nuco_messenger.Db.Conversations.{Conversation, Conversations, get_conversation}
use nuco_messenger.Db.Messages.{
  Message, Messages, delete_peer_authored, insert_message, is_peer_authored,
}
use nuco_messenger.Db.Transfers.{Staging, delete_conversation_transfer, is_transfer}
use nuco_messenger.Images.Again.{drop_transfers-again, receive_chunk-again, receive_image-again}
use nuco_messenger.Images.Receive.{Inbox, receive_chunk}
use nuco_messenger.Messaging.Confirms.{flush_deferred_confirm}
use nuco_messenger.Messaging.Controls.{
  SameTables, control-again, found_on-known, insert_message-again,
}
use nuco_messenger.Messaging.Gate.{is_confirm}
use nuco_messenger.Messaging.Receiving.{
  Envelope, ack, receive_content, receive_control, receive_delete, receive_text, route, stamp,
  transfer_of, with_conversation,
}
use nuco_messenger.Messaging.Store.{
  Announcement, Content, Store, World, call_content, control, device_of, image_chunk, image_content,
  message_delete, on_inbox, profile_name, text_content, unknown_content, verify_confirm,
  with_device,
}
use nuco_messenger.Negotiation.State.{Control, Device}
use nuco_messenger.Prelude.{
  Bool, List, Option, String, ap, arith, false, if◌then◌else◌, refl, some, str_eq, sym, true, ℕ,
  ◌&&◌, ◌∙◌, ◌≡◌,
}
use nuco_messenger.Prelude.Twice.{discard-again}

-- The four tables.
pub record Tables : Type 0 where
  pub contacts : Contacts
  pub conversations : Conversations
  pub messages : Messages
  pub staging : Staging

abbrev pub tables : Store → Tables
tables s = record {
  contacts = s.contacts;
  conversations = s.conversations;
  messages = s.messages;
  staging = s.staging;
}

abbrev pub is_name : Content → Bool
is_name (profile_name name) = true
is_name _ = false

module _ (w : World) where
  flush_verified :
      (now : ℕ) (c : ContactRow) (s : Store)
      → is_mutually_verified c ≡ true
      → flush_deferred_confirm w now c s ≡ s
  unfolding flush_deferred_confirm
  flush_verified now c s v = ground arith

  with_conversation_known :
      (c : ContactRow) (now : ℕ) (s : Store) (r : Conversation)
      → get_conversation c.id s.conversations ≡ some r
      → with_conversation c now s ≡ s
  unfolding with_conversation
  with_conversation_known c now s r e = rw (found_on-known c.id now (device_of s) r e) refl

  behind_gate :
      (c : ContactRow) (e : Envelope) (content : Content) (now : ℕ) (s : Store)
      → is_confirm content ≡ false
      → receive_content w c e content now s ≡ (
          let flushed = flush_deferred_confirm w now c s in
          if is_mutually_verified c
          then ack e (route w c e content now (with_conversation c now flushed))
          else ack e flushed)
  unfolding receive_content
  behind_gate c e (verify_confirm hash) now s n = cc
  behind_gate c e content now s n = refl

  -- The content of a verified contact goes straight to its branch.
  pub routed :
      (c : ContactRow) (e : Envelope) (content : Content) (now : ℕ) (s : Store) (r : Conversation)
      → is_confirm content ≡ false
      → is_mutually_verified c ≡ true
      → get_conversation c.id s.conversations ≡ some r
      → receive_content w c e content now s ≡ ack e (route w c e content now s)
  routed c e content now s r n v h =
      behind_gate c e content now s n
      ∙ rw (flush_verified now c s v, v, with_conversation_known c now s r h) refl

  -- One row is inserted, and nothing else changes.
  abbrev pub Inserts : String → Store → Store → Type 0
  Inserts key s after =
      (row : Message) × (row.id ≡ key)
      × (tables after ≡ record (tables s) { messages = insert_message row s.messages })

  pub Inserts-again :
      (key : String) (s once twice : Store)
      → Inserts key s once
      → Inserts key once twice
      → tables twice ≡ tables once
  Inserts-again key s once twice (row, i, t) (again, j, u) =
      let m = ap (λ (x : Tables). x.messages) t in
      u
      ∙ ap (λ (x : Messages). record (tables once) { messages = x })
          (ap (insert_message again) m
            ∙ insert_message-again row again s.messages (j ∙ sym i)
            ∙ sym m)

  pub text-Inserts :
      (c : ContactRow) (e : Envelope) (body : String) (reply : Option String) (now : ℕ) (s : Store)
      (r : Conversation)
      → get_conversation c.id s.conversations ≡ some r
      → Inserts e.id s (receive_text w c e body reply now s)
  unfolding receive_text
  text-Inserts c e body reply now s r h =
      rw (found_on-known c.id now (device_of s) r h) (_, refl, refl)

  text-again :
      (c : ContactRow) (e : Envelope) (body : String) (reply : Option String) (now later : ℕ)
      (s : Store) (r : Conversation)
      → get_conversation c.id s.conversations ≡ some r
      → let once = receive_text w c e body reply now s in
        tables (receive_text w c e body reply later once) ≡ tables once
  text-again c e body reply now later s r h =
      let once = receive_text w c e body reply now s in
      let first = text-Inserts c e body reply now s r h in
      let still = ap (λ (x : Tables). get_conversation c.id x.conversations) first.2 ∙ h in
      Inserts-again e.id s once (receive_text w c e body reply later once) first
        (text-Inserts c e body reply later once r still)

  image-again :
      (c : ContactRow) (e : Envelope) (a : Announcement) (now later : ℕ) (s : Store)
      → let once = route w c e (image_content a) now s in
        tables (route w c e (image_content a) later once) ≡ tables once
  unfolding route
  image-again c e a now later s =
      ap (λ (i : Inbox). record (tables s) { messages = i.messages; staging = i.staging })
        (receive_image-again (transfer_of w c e a now) (transfer_of w c e a later)
          (record { staging = s.staging; messages = s.messages }) refl)

  chunk_routed :
      (c : ContactRow) (e : Envelope) (key : String) (n : ℕ) (body : List ℕ) (now : ℕ) (s : Store)
      (r : Conversation)
      → get_conversation c.id s.conversations ≡ some r
      → tables (route w c e (image_chunk key n body) now s)
        ≡ tables (on_inbox (receive_chunk w.tools w.ciphers s.draws now r c.id key n body) s)
  unfolding route
  chunk_routed c e key n body now s r h = rw (found_on-known c.id now (device_of s) r h) refl

  chunk-again :
      (c : ContactRow) (e : Envelope) (key : String) (n : ℕ) (body : List ℕ) (now later : ℕ)
      (s : Store) (r : Conversation)
      → get_conversation c.id s.conversations ≡ some r
      → let once = route w c e (image_chunk key n body) now s in
        tables (route w c e (image_chunk key n body) later once) ≡ tables once
  chunk-again c e key n body now later s r h =
      let once = route w c e (image_chunk key n body) now s in
      let first = chunk_routed c e key n body now s r h in
      let run = λ (draws at : ℕ) (i : Inbox).
        receive_chunk w.tools w.ciphers draws at r c.id key n body i in
      let seen = λ (t : Tables). record t {
        messages =
            (run once.draws later (record { staging = t.staging; messages = t.messages })).messages;
        staging =
            (run once.draws later (record { staging = t.staging; messages = t.messages })).staging;
      } in
      chunk_routed c e key n body later once r
        (ap (λ (x : Tables). get_conversation c.id x.conversations) first ∙ h)
      ∙ ap seen first
      ∙ ap (λ (i : Inbox). record (tables s) { messages = i.messages; staging = i.staging })
          (receive_chunk-again w.tools w.ciphers r c.id s.draws now once.draws later key n body
            (record { staging = s.staging; messages = s.messages }))
      ∙ sym first

  same_device :
      (s : Store) (d after : Device)
      → SameTables d after
      → tables (with_device s after) ≡ tables (with_device s d)
  same_device s d after (t, m) =
      ap (λ (x : Conversations). record (tables s) { conversations = x; messages = after.messages })
        t
      ∙ ap (λ (x : Messages). record (tables s) { conversations = d.conversations; messages = x }) m

  control_again :
      (c : ContactRow) (e : Envelope) (k : Control) (now later : ℕ) (s : Store) (r : Conversation)
      → get_conversation c.id s.conversations ≡ some r
      → let once = route w c e (control k) now s in
        tables (route w c e (control k) later once) ≡ tables once
  unfolding route
  control_again c e k now later s r h =
      let d = device_of s in
      let once = device_of (with_device s (receive_control w k c.id e.id (stamp e now) now d)) in
      let twice = receive_control w k c.id e.id (stamp e later) later once in
      same_device s once twice (
        control-again w c.id e.id k (stamp e now) (stamp e later) now later d once r h (refl, refl))

  delete-again :
      (c : ContactRow) (key : String) (s : Store)
      → tables (receive_delete c key (receive_delete c key s)) ≡ tables (receive_delete c key s)
  unfolding receive_delete delete_peer_authored delete_conversation_transfer
  delete-again c key s =
      rw
        (
          discard-again (is_peer_authored key c.id) s.messages,
          drop_transfers-again (λ t. is_transfer key t && str_eq t.conversation_id c.id) s.staging,
        )
        refl

  -- Every branch but the one of the names.
  pub route-again :
      (c : ContactRow) (e : Envelope) (content : Content) (now later : ℕ) (s : Store)
      (r : Conversation)
      → is_name content ≡ false
      → get_conversation c.id s.conversations ≡ some r
      → let once = route w c e content now s in
        tables (route w c e content later once) ≡ tables once
  unfolding route
  route-again c e (text_content body reply) now later s r n h =
      text-again c e body reply now later s r h
  route-again c e (image_content a) now later s r n h = image-again c e a now later s
  route-again c e (image_chunk key k body) now later s r n h =
      chunk-again c e key k body now later s r h
  route-again c e (control k) now later s r n h = control_again c e k now later s r h
  route-again c e (call_content k) now later s r n h = refl
  route-again c e (message_delete key) now later s r n h = delete-again c key s
  route-again c e (profile_name name) now later s r n h = cc
  route-again c e (verify_confirm hash) now later s r n h = refl
  route-again c e unknown_content now later s r n h = refl
