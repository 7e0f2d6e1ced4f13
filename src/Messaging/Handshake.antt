-- ===== src/Messaging/Handshake.antt =====
-- The mutual verification of src/services/verification.ts on two devices.
use nuco_messenger.AppLock.Unlock.{lock}
use nuco_messenger.Db.Contacts.{
  ContactRow, confirm_local, confirm_peer, get_contact_by_handle, set_local_confirmed,
  set_peer_confirmed,
}
use nuco_messenger.Messaging.AtLeastOnce.{after_update}
use nuco_messenger.Messaging.Confirms.{
  accept_confirm, answer_confirm, confirm_verification, handle_inbound_confirm, insert_verified_row,
  log_own_unlock, log_peer_unlock, own_hash, proof_for, start_confirm, unguard,
}
use nuco_messenger.Messaging.Gate.{may_send, send_content}
use nuco_messenger.Messaging.Harmless.{received}
use nuco_messenger.Messaging.Receiving.{
  Envelope, ack, opened, receive_content, receive_envelope, receive_from, stamp,
}
use nuco_messenger.Messaging.Store.{Account, Content, Store, World, verify_confirm}
use nuco_messenger.Prelude.{
  Option, String, [], ap, arith, eq_refl, false, is_some, none, refl, some, subst, sym, true, ℕ,
  ◌∙◌, ◌∷◌, ◌≡◌,
}
use nuco_messenger.Prelude.Keys.{has, has-delete_self}

-- The row was made from a scan of this account's card.
abbrev pub IsScanOf : Account → ContactRow → Type 0
IsScanOf a c =
    (c.handle ≡ a.handle)
    × (c.identity_pubkey ≡ a.identity_key)
    × (c.card_spk_pub ≡ some a.spk_pub)
    × (c.card_kyber_pub ≡ some a.kyber_pub)

-- The device of the account is unlocked, finds the row, not blocked, by its handle, and has a session with
-- its contact.
pub record Knows (a : Account) (c : ContactRow) (s : Store) : Type 0 where
  pub owner : s.account ≡ some a
  pub is_open : s.is_unlocked ≡ true
  pub row : get_contact_by_handle c.handle s.contacts ≡ some c
  pub free : c.is_blocked ≡ false
  pub session : has c.handle s.sessions ≡ true

-- The handle and the content of the envelope that left last.
abbrev pub last_sent : Store → Option (String × Content)
last_sent s = elim s.wire [ [] ↦ none | e ∷ es ↦ some (e.handle, e.content) ]

module _ (w : World) where
  -- The confirm that a contact awaits from its peer.
  abbrev pub proof_to : Account → Content
  proof_to a = verify_confirm (own_hash w a)

  proof_for_scan : (a : Account) (c : ContactRow) → IsScanOf a c → proof_for w c ≡ some (proof_to a)
  unfolding proof_for
  proof_for_scan a c (h, i, s, k) = rw (proof_for, s, k, h, i) refl

  starts_confirm :
      (now : ℕ) (a : Account) (c : ContactRow) (s : Store)
      → IsScanOf a c
      → has c.handle s.sent_this_run ≡ false
      → let d = start_confirm w now c s in
        (d.contacts ≡ s.contacts)
        × (d.account ≡ s.account)
        × (d.sessions ≡ s.sessions)
        × (d.is_unlocked ≡ s.is_unlocked)
        × (last_sent d ≡ some (c.handle, proof_to a))
  unfolding start_confirm send_content may_send
  starts_confirm now a c s scan free =
      rw (start_confirm, proof_for_scan a c scan, free) (refl, refl, refl, refl, refl)

  -- What an unlock's row leaves alone.
  abbrev LeavesAlone : Store → Store → Type 0
  LeavesAlone s d =
      (d.contacts ≡ s.contacts)
      × (d.account ≡ s.account)
      × (d.sessions ≡ s.sessions)
      × (d.sent_this_run ≡ s.sent_this_run)
      × (d.is_unlocked ≡ s.is_unlocked)

  own_unlock-LeavesAlone :
      (now : ℕ) (c : ContactRow) (s : Store) → LeavesAlone s (log_own_unlock w now c s)
  unfolding insert_verified_row
  own_unlock-LeavesAlone now c s = ground arith

  peer_unlock-LeavesAlone :
      (key : String) (at now : ℕ) (c : ContactRow) (s : Store)
      → LeavesAlone s (log_peer_unlock w key at now c s)
  unfolding insert_verified_row
  peer_unlock-LeavesAlone key at now c s = ground arith

  pub press_lem :
      (number : String) (now : ℕ) (o a : Account) (c : ContactRow) (s : Store)
      → Knows o c s
      → IsScanOf a c
      → has c.handle s.sent_this_run ≡ false
      → let d = confirm_verification w number now c s in
        Knows o (confirm_local number now c) d × (last_sent d ≡ some (c.handle, proof_to a))
  unfolding confirm_verification set_local_confirmed
  press_lem number now o a c s k scan unsent =
      let stored = record s { contacts = set_local_confirmed c.id number now s.contacts } in
      let pressed = log_own_unlock w now c stored in
      let (contacts, account, sessions, guard, lock) = own_unlock-LeavesAlone now c stored in
      let (kept, owner, there, open_still, left) =
        starts_confirm now a (record c { local_confirmed_at = some now }) pressed scan
          (ap (has c.handle) guard ∙ unsent) in
      rw (confirm_verification, k.owner, ap (has c.handle) sessions ∙ k.session)
        (
          record {
            owner = owner ∙ account ∙ k.owner;
            is_open = open_still ∙ lock ∙ k.is_open;
            row =
                ap (get_contact_by_handle c.handle) (kept ∙ contacts)
                ∙ after_update c.handle c.id (confirm_local number now) s.contacts c (λ x. refl)
                    k.row refl;
            free = k.free;
            session = ap (has c.handle) (there ∙ sessions) ∙ k.session;
          },
          left,
        )

  answer_kept :
      (now : ℕ) (c : ContactRow) (s : Store)
      → let d = answer_confirm w now c s in
        (d.contacts ≡ s.contacts)
        × (d.account ≡ s.account)
        × (d.sessions ≡ s.sessions)
        × (d.is_unlocked ≡ s.is_unlocked)
  unfolding answer_confirm start_confirm send_content
  answer_kept now c s = ground arith

  -- The device once the confirm has been stored and logged, before the answer.
  abbrev noted : String → ℕ → ℕ → ContactRow → Store → Store
  noted key at now c s =
      log_peer_unlock w key at now c
        (record s { contacts = set_peer_confirmed c.id now s.contacts })

  first_confirm :
      (key : String) (at now : ℕ) (c : ContactRow) (s : Store)
      → is_some c.peer_confirmed_at ≡ false
      → accept_confirm w key at now c s ≡ answer_confirm w now c (noted key at now c s)
  unfolding accept_confirm
  first_confirm key at now c s first = ground (arith, first)

  answers_start :
      (now : ℕ) (c : ContactRow) (s : Store)
      → is_some c.local_confirmed_at ≡ true
      → answer_confirm w now c s ≡ start_confirm w now c (unguard c.handle s)
  unfolding answer_confirm
  answers_start now c s pressed = ground (arith, pressed)

  true_confirm :
      (key : String) (at now : ℕ) (o : Account) (c : ContactRow) (s : Store)
      → s.account ≡ some o
      → handle_inbound_confirm w c (own_hash w o) key at now s ≡ accept_confirm w key at now c s
  unfolding handle_inbound_confirm
  true_confirm key at now o c s owner = ground (arith, owner, eq_refl (own_hash w o))

  heard :
      (e : Envelope) (now : ℕ) (o : Account) (c : ContactRow) (s : Store)
      → Knows o c s
      → c.peer_confirmed_at ≡ none
      → receive_envelope w c.handle e (opened (proof_to o)) now s
        ≡ ack e (answer_confirm w now c (noted e.id (stamp e now) now c s))
  unfolding receive_from receive_content
  heard e now o c s k first =
      received w c.handle e (opened (proof_to o)) now c s k.is_open k.row k.free
      ∙ ap (ack e) (
          true_confirm e.id (stamp e now) now o c s k.owner
          ∙ first_confirm e.id (stamp e now) now c s (ap is_some first))

  pub hear_lem :
      (e : Envelope) (now : ℕ) (o : Account) (c : ContactRow) (s : Store)
      → Knows o c s
      → c.peer_confirmed_at ≡ none
      → Knows o (confirm_peer now c) (receive_envelope w c.handle e (opened (proof_to o)) now s)
  unfolding set_peer_confirmed
  hear_lem e now o c s k first =
      let stored = record s { contacts = set_peer_confirmed c.id now s.contacts } in
      let (contacts, account, sessions, guard, lock) =
        peer_unlock-LeavesAlone e.id (stamp e now) now c stored in
      let (kept, owner, there, open_still) = answer_kept now c (noted e.id (stamp e now) now c s) in
      subst (Knows o (confirm_peer now c)) (sym (heard e now o c s k first)) (record {
        owner = owner ∙ account ∙ k.owner;
        is_open = open_still ∙ lock ∙ k.is_open;
        row =
            ap (get_contact_by_handle c.handle) (kept ∙ contacts)
            ∙ after_update c.handle c.id (confirm_peer now) s.contacts c (λ x. refl) k.row refl;
        free = k.free;
        session = ap (has c.handle) (there ∙ sessions) ∙ k.session;
      })

  -- Before the own press a confirm is not answered.
  pub hear_quietly :
      (e : Envelope) (now : ℕ) (o : Account) (c : ContactRow) (s : Store)
      → Knows o c s
      → c.peer_confirmed_at ≡ none
      → c.local_confirmed_at ≡ none
      → (receive_envelope w c.handle e (opened (proof_to o)) now s).sent_this_run ≡ s.sent_this_run
  unfolding answer_confirm
  hear_quietly e now o c s k first unpressed =
      ap (λ (d : Store). d.sent_this_run) (heard e now o c s k first)
      ∙ rw (answer_confirm, unpressed) refl

  -- After it the answer is the proof that the peer awaits.
  pub hear_answers :
      (e : Envelope) (now at : ℕ) (o a : Account) (c : ContactRow) (s : Store)
      → Knows o c s
      → IsScanOf a c
      → c.peer_confirmed_at ≡ none
      → c.local_confirmed_at ≡ some at
      → last_sent (receive_envelope w c.handle e (opened (proof_to o)) now s)
        ≡ some (c.handle, proof_to a)
  hear_answers e now at o a c s k scan first pressed =
      let before = noted e.id (stamp e now) now c s in
      ap last_sent (heard e now o c s k first)
      ∙ ap last_sent (answers_start now c before (ap is_some pressed))
      ∙ (starts_confirm now a c (unguard c.handle before) scan
          (has-delete_self c.handle before.sent_this_run)).4
