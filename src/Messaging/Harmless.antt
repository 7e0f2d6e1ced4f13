-- ===== src/Messaging/Harmless.antt =====
-- `doReceiveEnvelope` of src/services/messaging.ts on every envelope that is delivered twice.
use nuco_messenger.AppLock.Unlock.{lock}
use nuco_messenger.Db.Contacts.{
  ContactRow, Contacts, get_contact_by_handle, is_contact, is_mutually_verified, reset_verification,
  unverified,
}
use nuco_messenger.Db.Conversations.{Conversation, get_conversation}
use nuco_messenger.Db.Messages.{Message, Messages, insert_message}
use nuco_messenger.Messaging.AtLeastOnce.{
  Again, after_update, dropped-Again, first-Again, known-Again, of_shown, unproved-Again,
}
use nuco_messenger.Messaging.Confirms.{forget_confirm_state}
use nuco_messenger.Messaging.Controls.{found_on-known, insert_message-again}
use nuco_messenger.Messaging.Delivered.{name-Again, routed-Again}
use nuco_messenger.Messaging.Gate.{is_confirm}
use nuco_messenger.Messaging.Gated.{Shown, proves_scan, shown, unlocked-receive_from}
use nuco_messenger.Messaging.Receiving.{
  Decryption, Envelope, ack, changed_identity, duplicate, handle_identity_change, opened,
  receive_content, receive_envelope, receive_from, undecryptable,
}
use nuco_messenger.Messaging.Redelivery.{Tables, tables}
use nuco_messenger.Messaging.Store.{Content, Store, World, device_of, profile_name, verify_confirm}
use nuco_messenger.Prelude.{
  Bool-cases, String, ap, arith, false, inl, inr, is_some, not, refl, some, sym, true, ℕ, ◌&&◌, ◌∙◌,
  ◌≡◌,
}
use nuco_messenger.Prelude.Twice.{modify-again}

module _ (w : World) where
  -- The second sign of a changed identity meets a contact that is reset already.
  identity_tables :
      (c : ContactRow) (e : Envelope) (now : ℕ) (s : Store) (r : Conversation)
      → get_conversation c.id s.conversations ≡ some r
      → (row : Message) × (row.id ≡ e.id)
        × (tables (handle_identity_change c e now s) ≡ record (tables s) {
          contacts = reset_verification c.id s.contacts;
          messages = insert_message row s.messages;
        })
  unfolding handle_identity_change forget_confirm_state
  identity_tables c e now s r h = rw (found_on-known c.id now (device_of s) r h) (_, refl, refl)

  reset-again :
      (key : String) (t : Contacts)
      → reset_verification key (reset_verification key t) ≡ reset_verification key t
  unfolding reset_verification
  reset-again key t = modify-again (is_contact key) unverified unverified (λ x. refl) (λ x. refl) t

  module _ (from : String) (e : Envelope) (now later : ℕ) (c : ContactRow) (s : Store)
      (found : get_contact_by_handle from s.contacts ≡ some c) (free : c.is_blocked ≡ false)
      (r : Conversation) (known : get_conversation c.id s.conversations ≡ some r) where
    identity-Again :
        Again w from e changed_identity later (ack e (handle_identity_change c e now s))
    unfolding receive_from reset_verification
    identity-Again =
        let once = ack e (handle_identity_change c e now s) in
        let (row, i, t) = identity_tables c e now s r known in
        let (row', j, u) =
          identity_tables (unverified c) e later once r
            (ap (λ (x : Tables). get_conversation c.id x.conversations) t ∙ known) in
        let m = ap (λ (x : Tables). x.messages) t in
        let k = ap (λ (x : Tables). x.contacts) t in
        (
          unverified c,
          ap (λ (x : Tables). get_contact_by_handle from x.contacts) t
              ∙ after_update from c.id unverified s.contacts c (λ x. refl) found refl,
          free,
          u
              ∙ ap
                  (λ (x : Contacts). record (tables once) {
                    contacts = x;
                    messages = insert_message row' once.messages;
                  })
                  (ap (reset_verification c.id) k ∙ reset-again c.id s.contacts ∙ sym k)
              ∙ ap (λ (x : Messages). record (tables once) { messages = x })
                  (ap (insert_message row') m
                    ∙ insert_message-again row row' s.messages (j ∙ sym i)
                    ∙ sym m),
        )

    confirm-Again :
        (hash : String)
        → Again w from e
            (opened (verify_confirm hash))
            later
            (receive_content w c e (verify_confirm hash) now s)
    confirm-Again hash = elim (Bool-cases (proves_scan w s.account hash)) [
      | inr p ↦ unproved-Again w from e now later c s found free hash p
      | inl p ↦ elim (Bool-cases (is_some c.peer_confirmed_at)) [
        | inl q ↦ known-Again w from e now later c s found free hash q
        | inr q ↦ first-Again w from e now later c s found free hash p q
      ]
    ]

    gated-Again :
        (content : Content)
        → is_confirm content ≡ false
        → Again w from e (opened content) later (receive_content w c e content now s)
    gated-Again content n = elim (Bool-cases (is_mutually_verified c)) [
      | inr v ↦ dropped-Again w from e now later c s found free content n v
      | inl v ↦ verified-Again content n v
    ]
      where
        verified-Again :
            (content : Content)
            → is_confirm content ≡ false
            → is_mutually_verified c ≡ true
            → Again w from e (opened content) later (receive_content w c e content now s)
        verified-Again (profile_name name) n v =
            name-Again w from e now later c s found free r known v name
        verified-Again content n v =
            routed-Again w from e now later c s found free r known v content n refl

    from-Again : (o : Decryption) → Again w from e o later (receive_from w c e o now s)
    unfolding receive_from
    from-Again (opened (verify_confirm hash)) = confirm-Again hash
    from-Again (opened content) = gated-Again content refl
    from-Again changed_identity = identity-Again
    from-Again duplicate = (c, found, free, refl)
    from-Again undecryptable = (c, found, free, refl)

  pub received :
      (from : String) (e : Envelope) (o : Decryption) (now : ℕ) (c : ContactRow) (s : Store)
      → s.is_unlocked ≡ true
      → get_contact_by_handle from s.contacts ≡ some c
      → c.is_blocked ≡ false
      → receive_envelope w from e o now s ≡ receive_from w c e o now s
  unfolding receive_envelope
  received from e o now c s u f b = ground (arith, u, f, b)

  turned_away :
      (from : String) (e : Envelope) (o : Decryption) (now : ℕ) (c : ContactRow) (s : Store)
      → (s.is_unlocked && not c.is_blocked) ≡ false
      → get_contact_by_handle from s.contacts ≡ some c
      → (shown (receive_envelope w from e o now s) ≡ shown s)
        × ((receive_envelope w from e o now s).is_unlocked ≡ s.is_unlocked)
  unfolding receive_envelope
  turned_away from e o now c s u f = ground (arith, u, f)

  turned_away-again :
      (from : String) (e : Envelope) (o : Decryption) (now later : ℕ) (c : ContactRow) (s : Store)
      → (s.is_unlocked && not c.is_blocked) ≡ false
      → get_contact_by_handle from s.contacts ≡ some c
      → let once = receive_envelope w from e o now s in
        tables (receive_envelope w from e o later once) ≡ tables once
  turned_away-again from e o now later c s u f =
      let once = receive_envelope w from e o now s in
      let (same, lock) = turned_away from e o now c s u f in
      of_shown w (receive_envelope w from e o later once) once
        (turned_away from e o later c once (ap (λ b. b && not c.is_blocked) lock ∙ u)
          (ap (λ (x : Shown). get_contact_by_handle from x.contacts) same ∙ f)).0

  -- The relay delivers at least once: an envelope of a contact that has its conversation can come a
  -- second time, at whatever time, with the same outcome of its decryption. Whatever it carries, and
  -- whether or not its sender is verified or blocked, the second delivery leaves the contacts, the
  -- conversations, the messages and the images in transit as the first has left them.
  pub redelivery_changes_nothing :
      (from : String) (e : Envelope) (o : Decryption) (now later : ℕ) (s : Store) (c : ContactRow)
      (r : Conversation)
      → get_contact_by_handle from s.contacts ≡ some c
      → get_conversation c.id s.conversations ≡ some r
      → let once = receive_envelope w from e o now s in
        tables (receive_envelope w from e o later once) ≡ tables once
  redelivery_changes_nothing from e o now later s c r f h =
      elim (Bool-cases (s.is_unlocked && not c.is_blocked)) [
        | inr u ↦ turned_away-again from e o now later c s u f
        | inl u ↦
            let unlocked : s.is_unlocked ≡ true = ground (arith, u) in
            let free : c.is_blocked ≡ false = ground (arith, u) in
            let first = received from e o now c s unlocked f free in
            let there = receive_from w c e o now s in
            let (c2, f2, free2, same) = from-Again from e now later c s f free r h o in
            rw first (
              ap tables (
                received from e o later c2 there (unlocked-receive_from w c e o now s ∙ unlocked) f2
                  free2)
              ∙ same)
      ]
