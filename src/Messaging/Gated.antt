-- ===== src/Messaging/Gated.antt =====
-- The gates of `doReceiveEnvelope` of src/services/messaging.ts: what is acknowledged, and what may change
-- the tables.
use nuco_messenger.Call.Types.{incoming}
use nuco_messenger.Db.Contacts.{
  ContactRow, Contacts, get_contact_by_handle, is_mutually_verified, set_peer_confirmed,
}
use nuco_messenger.Db.Conversations.{Conversations}
use nuco_messenger.Db.Messages.{Messages}
use nuco_messenger.Db.Transfers.{Staging}
use nuco_messenger.Messaging.Confirms.{
  accept_confirm, answer_confirm, flush_deferred_confirm, forget_confirm_state,
  handle_inbound_confirm, insert_verified_row, own_hash, send_confirm, start_confirm, unguard,
}
use nuco_messenger.Messaging.Receiving.{
  Decryption, Envelope, MessageType, changed_identity, duplicate, handle_identity_change, opened,
  prekey, receive_content, receive_delete, receive_envelope, receive_from, receive_name,
  receive_text, route, stamp, undecryptable, whisper, with_conversation,
}
use nuco_messenger.Messaging.Store.{
  Account, Content, Ring, Store, World, profile_name, text_content, verify_confirm,
}
use nuco_messenger.Prelude.{
  Bool, List, Option, Option-cases, String, ap, arith, false, if◌then◌else◌, inl, inr, none, not,
  refl, some, str_eq, subst, true, ℕ, ◌&&◌, ◌∷◌, ◌≡◌,
}

-- What the envelope leads to once its sender has been looked up: it is settled, and needs no second
-- delivery.
abbrev pub is_settled : Option ContactRow → MessageType → Decryption → Bool
is_settled none prekey o = false
is_settled none whisper o = true
is_settled (some c) kind undecryptable = c.is_blocked
is_settled (some c) kind _ = true

-- What the screens show and the call controller hears.
pub record Shown : Type 0 where
  pub contacts : Contacts
  pub conversations : Conversations
  pub messages : Messages
  pub staging : Staging
  pub rung : List Ring

abbrev pub shown : Store → Shown
shown s = record {
  contacts = s.contacts;
  conversations = s.conversations;
  messages = s.messages;
  staging = s.staging;
  rung = s.rung;
}

-- What no envelope changes but the acknowledgements.
pub record Aside : Type 0 where
  pub acks : List String
  pub is_unlocked : Bool
  pub account : Option Account

abbrev pub aside : Store → Aside
aside s = record { acks = s.acks; is_unlocked = s.is_unlocked; account = s.account }

module _ (w : World) where
  aside-start_confirm :
      (now : ℕ) (c : ContactRow) (s : Store) → aside (start_confirm w now c s) ≡ aside s
  unfolding start_confirm
  aside-start_confirm now c s = ground arith

  shown-send_confirm :
      (now : ℕ) (c : ContactRow) (s : Store)
      → (shown (send_confirm w now c s) ≡ shown s) × (aside (send_confirm w now c s) ≡ aside s)
  unfolding send_confirm
  shown-send_confirm now c s = ground arith

  pub shown-flush :
      (now : ℕ) (c : ContactRow) (s : Store)
      → (shown (flush_deferred_confirm w now c s) ≡ shown s)
        × (aside (flush_deferred_confirm w now c s) ≡ aside s)
  unfolding flush_deferred_confirm
  shown-flush now c s = ground (arith, shown-send_confirm now c s)

  aside-answer_confirm :
      (now : ℕ) (c : ContactRow) (s : Store) → aside (answer_confirm w now c s) ≡ aside s
  unfolding answer_confirm
  aside-answer_confirm now c s = ground (arith, aside-start_confirm now c (unguard c.handle s))

  aside-accept_confirm :
      (key : String) (at now : ℕ) (c : ContactRow) (s : Store)
      → aside (accept_confirm w key at now c s) ≡ aside s
  unfolding accept_confirm insert_verified_row
  aside-accept_confirm key at now c s =
      let noted = record s { contacts = set_peer_confirmed c.id now s.contacts } in
      ground (
        arith,
        aside-answer_confirm now c s,
        aside-answer_confirm now c noted,
        aside-answer_confirm now c (insert_verified_row c.id key at incoming now noted),
      )

  pub aside-inbound :
      (c : ContactRow) (hash key : String) (at now : ℕ) (s : Store)
      → aside (handle_inbound_confirm w c hash key at now s) ≡ aside s
  unfolding handle_inbound_confirm
  aside-inbound c hash key at now s = ground (arith, aside-accept_confirm key at now c s)

  pub aside-route :
      (c : ContactRow) (e : Envelope) (content : Content) (now : ℕ) (s : Store)
      → aside (route w c e content now s) ≡ aside s
  unfolding route receive_text receive_delete receive_name
  aside-route c e (text_content body reply) now s = refl
  aside-route c e (profile_name name) now s = ground arith
  aside-route c e _ now s = refl

  acks-receive_content :
      (c : ContactRow) (e : Envelope) (content : Content) (now : ℕ) (s : Store)
      → (receive_content w c e content now s).acks ≡ e.id ∷ s.acks
  unfolding receive_content with_conversation
  acks-receive_content c e (verify_confirm hash) now s =
      ap (λ (a : Aside). e.id ∷ a.acks) (aside-inbound c hash e.id (stamp e now) now s)
  acks-receive_content c e content now s =
      let flushed = flush_deferred_confirm w now c s in
      ground
        (arith, shown-flush now c s, aside-route c e content now (with_conversation c now flushed))

  unlocked-receive_content :
      (c : ContactRow) (e : Envelope) (content : Content) (now : ℕ) (s : Store)
      → (receive_content w c e content now s).is_unlocked ≡ s.is_unlocked
  unfolding receive_content with_conversation
  unlocked-receive_content c e (verify_confirm hash) now s =
      ap (λ (a : Aside). a.is_unlocked) (aside-inbound c hash e.id (stamp e now) now s)
  unlocked-receive_content c e content now s =
      let flushed = flush_deferred_confirm w now c s in
      ground
        (arith, shown-flush now c s, aside-route c e content now (with_conversation c now flushed))

  pub unlocked-receive_from :
      (c : ContactRow) (e : Envelope) (o : Decryption) (now : ℕ) (s : Store)
      → (receive_from w c e o now s).is_unlocked ≡ s.is_unlocked
  unfolding receive_from handle_identity_change forget_confirm_state
  unlocked-receive_from c e (opened content) now s = unlocked-receive_content c e content now s
  unlocked-receive_from c e _ now s = refl

  acks-receive_from :
      (c : ContactRow) (e : Envelope) (o : Decryption) (now : ℕ) (s : Store)
      → (receive_from w c e o now s).acks ≡ (
          if is_settled (some (record c { is_blocked = false })) e.message_type o
          then e.id ∷ s.acks
          else s.acks)
  unfolding receive_from handle_identity_change forget_confirm_state
  acks-receive_from c e (opened content) now s = acks-receive_content c e content now s
  acks-receive_from c e changed_identity now s = refl
  acks-receive_from c e duplicate now s = refl
  acks-receive_from c e undecryptable now s = refl

  -- An envelope is acknowledged, once, if and only if the app is unlocked and the envelope is settled:
  -- its sender is known and blocked, or it could be decrypted, or was a duplicate, or came from a
  -- changed identity; or its sender is unknown and it is no prekey message. All else is left to the
  -- relay's next delivery.
  pub acks-receive_envelope :
      (from : String) (e : Envelope) (o : Decryption) (now : ℕ) (s : Store)
      → (receive_envelope w from e o now s).acks ≡ (
          if s.is_unlocked && is_settled (get_contact_by_handle from s.contacts) e.message_type o
          then e.id ∷ s.acks
          else s.acks)
  unfolding receive_envelope
  acks-receive_envelope from e o now s =
      elim (Option-cases (get_contact_by_handle from s.contacts)) [
        | inl n ↦ rw (receive_envelope, n) (ground arith)
        | inr (c, f) ↦ rw (receive_envelope, f) (ground (arith, acks-receive_from c e o now s))
      ]

  abbrev pub proves_scan : Option Account → String → Bool
  proves_scan none hash = false
  proves_scan (some a) hash = str_eq hash (own_hash w a)

  abbrev pub admits_content : Store → ContactRow → Content → Bool
  admits_content s c (verify_confirm hash) = proves_scan s.account hash
  admits_content s c _ = is_mutually_verified c

  abbrev pub admits_from : Store → ContactRow → Decryption → Bool
  admits_from s c (opened content) = admits_content s c content
  admits_from s c changed_identity = true
  admits_from s c duplicate = false
  admits_from s c undecryptable = false

  -- Which envelopes may change what is shown.
  abbrev pub admits : Store → Option ContactRow → Decryption → Bool
  admits s none o = false
  admits s (some c) o = s.is_unlocked && not c.is_blocked && admits_from s c o

  pub shown-receive_content :
      (c : ContactRow) (e : Envelope) (content : Content) (now : ℕ) (s : Store)
      → admits_content s c content ≡ false
      → shown (receive_content w c e content now s) ≡ shown s
  unfolding receive_content handle_inbound_confirm
  shown-receive_content c e (verify_confirm hash) now s n = ground arith
  shown-receive_content c e content now s n = ground (arith, n, shown-flush now c s)

  shown-receive_from :
      (c : ContactRow) (e : Envelope) (o : Decryption) (now : ℕ) (s : Store)
      → admits_from s c o ≡ false
      → shown (receive_from w c e o now s) ≡ shown s
  unfolding receive_from
  shown-receive_from c e (opened content) now s n = shown-receive_content c e content now s n
  shown-receive_from c e changed_identity now s n = cc
  shown-receive_from c e duplicate now s n = refl
  shown-receive_from c e undecryptable now s n = refl

  -- No envelope changes a contact, a conversation, a message or an image in transit, or rings, unless
  -- the app is unlocked, its sender is a contact that is not blocked, and it is one of these: the
  -- content of a mutually verified contact, a confirm with the hash of the own card, or a sign of a
  -- changed identity.
  pub shown-receive_envelope :
      (from : String) (e : Envelope) (o : Decryption) (now : ℕ) (s : Store)
      → admits s (get_contact_by_handle from s.contacts) o ≡ false
      → shown (receive_envelope w from e o now s) ≡ shown s
  unfolding receive_envelope
  shown-receive_envelope from e o now s n =
      elim (Option-cases (get_contact_by_handle from s.contacts)) [
        | inl f ↦ rw (receive_envelope, f) (ground arith)
        | inr (c, f) ↦
            let m = subst (λ x. admits s x o ≡ false) f n in
            rw (receive_envelope, f) (ground (arith, m, shown-receive_from c e o now s))
      ]
