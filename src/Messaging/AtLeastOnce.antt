-- ===== src/Messaging/AtLeastOnce.antt =====
-- `doReceiveEnvelope` of src/services/messaging.ts against a relay that delivers at least once.
use nuco_messenger.Call.Types.{incoming}
use nuco_messenger.Db.Contacts.{
  ContactRow, Contacts, confirm_peer, get_contact_by_handle, has_handle, is_contact,
  is_mutually_verified, set_peer_confirmed,
}
use nuco_messenger.Messaging.Confirms.{
  accept_confirm, answer_confirm, handle_inbound_confirm, insert_verified_row, start_confirm,
  unguard,
}
use nuco_messenger.Messaging.Gate.{is_confirm}
use nuco_messenger.Messaging.Gated.{
  Aside, Shown, admits_content, aside-inbound, proves_scan, shown, shown-receive_content,
}
use nuco_messenger.Messaging.Receiving.{
  Decryption, Envelope, opened, receive_content, receive_from, stamp,
}
use nuco_messenger.Messaging.Redelivery.{tables}
use nuco_messenger.Messaging.Store.{Account, Content, Store, World, verify_confirm}
use nuco_messenger.Prelude.{
  Option, String, ap, arith, eq_refl, false, is_some, refl, some, str_eq, true, ℕ, ◌∙◌, ◌≡◌,
}
use nuco_messenger.Prelude.Rows.{modify}
use nuco_messenger.Prelude.Twice.{first-modify_other}

pub after_update :
    (h key : String) (f : ContactRow → ContactRow) (t : Contacts) (c : ContactRow)
    → ((x : ContactRow) → (f x).handle ≡ x.handle)
    → get_contact_by_handle h t ≡ some c
    → c.id ≡ key
    → get_contact_by_handle h (modify (is_contact key) f t) ≡ some (f c)
unfolding get_contact_by_handle
after_update h key f t c same e i =
    first-modify_other (has_handle h) (is_contact key) f (λ x. ap (λ k. str_eq k h) (same x)) t c e
      (ground (arith, eq_refl c.id, i))

module _ (w : World) where
  shown-start_confirm :
      (now : ℕ) (c : ContactRow) (s : Store) → shown (start_confirm w now c s) ≡ shown s
  unfolding start_confirm
  shown-start_confirm now c s = ground arith

  shown-answer_confirm :
      (now : ℕ) (c : ContactRow) (s : Store) → shown (answer_confirm w now c s) ≡ shown s
  unfolding answer_confirm
  shown-answer_confirm now c s = ground (arith, shown-start_confirm now c (unguard c.handle s))

  -- A confirm from a peer that has confirmed before changes no table.
  shown-inbound_known :
      (c : ContactRow) (hash key : String) (at now : ℕ) (s : Store)
      → is_some c.peer_confirmed_at ≡ true
      → shown (handle_inbound_confirm w c hash key at now s) ≡ shown s
  unfolding handle_inbound_confirm accept_confirm
  shown-inbound_known c hash key at now s p = ground (arith, p, shown-answer_confirm now c s)

  contacts-accept_confirm :
      (key : String) (at now : ℕ) (c : ContactRow) (s : Store)
      → is_some c.peer_confirmed_at ≡ false
      → (accept_confirm w key at now c s).contacts ≡ set_peer_confirmed c.id now s.contacts
  unfolding accept_confirm insert_verified_row
  contacts-accept_confirm key at now c s p =
      let noted = record s { contacts = set_peer_confirmed c.id now s.contacts } in
      ground (
        arith,
        p,
        shown-answer_confirm now c noted,
        shown-answer_confirm now c (insert_verified_row c.id key at incoming now noted),
      )

  -- What a second delivery meets: the contact that is found then, and that nothing changes.
  abbrev pub Again : String → Envelope → Decryption → ℕ → Store → Type 0
  Again from e o later once =
      (c : ContactRow) × (get_contact_by_handle from once.contacts ≡ some c)
      × (c.is_blocked ≡ false)
      × (tables (receive_from w c e o later once) ≡ tables once)

  pub of_shown : (s t : Store) → shown s ≡ shown t → tables s ≡ tables t
  of_shown s t e =
      ap
        (λ (x : Shown). record {
          contacts = x.contacts;
          conversations = x.conversations;
          messages = x.messages;
          staging = x.staging;
        })
        e

  module _ (from : String) (e : Envelope) (now later : ℕ) (c : ContactRow) (s : Store)
      (found : get_contact_by_handle from s.contacts ≡ some c) (free : c.is_blocked ≡ false) where
    pub still_found :
        (after : Store) → shown after ≡ shown s → get_contact_by_handle from after.contacts ≡ some c
    still_found after e = ap (λ (x : Shown). get_contact_by_handle from x.contacts) e ∙ found

    admits_other :
        (t : Store) (content : Content)
        → is_confirm content ≡ false
        → admits_content w t c content ≡ is_mutually_verified c
    admits_other t (verify_confirm hash) n = cc
    admits_other t content n = refl

    -- Content behind the gate of the mutual verification.
    pub dropped-Again :
        (content : Content)
        → is_confirm content ≡ false
        → is_mutually_verified c ≡ false
        → Again from e (opened content) later (receive_content w c e content now s)
    unfolding receive_from
    dropped-Again content n v =
        let once = receive_content w c e content now s in
        (
          c,
          still_found once
              (shown-receive_content w c e content now s (admits_other s content n ∙ v)),
          free,
          of_shown (receive_content w c e content later once) once
              (shown-receive_content w c e content later once (admits_other once content n ∙ v)),
        )

    -- A confirm that does not prove the scan of the own card.
    pub unproved-Again :
        (hash : String)
        → proves_scan w s.account hash ≡ false
        → Again from e
            (opened (verify_confirm hash))
            later
            (receive_content w c e (verify_confirm hash) now s)
    unfolding receive_from
    unproved-Again hash n =
        let once = receive_content w c e (verify_confirm hash) now s in
        let account =
          ap (λ (a : Aside). a.account) (aside-inbound w c hash e.id (stamp e now) now s) in
        (
          c,
          still_found once (shown-receive_content w c e (verify_confirm hash) now s n),
          free,
          of_shown (receive_content w c e (verify_confirm hash) later once) once (
              shown-receive_content w c e (verify_confirm hash) later once
                (ap (λ (a : Option Account). proves_scan w a hash) account ∙ n)),
        )

    inbound_accepts :
        (hash : String)
        → proves_scan w s.account hash ≡ true
        → handle_inbound_confirm w c hash e.id (stamp e now) now s
          ≡ accept_confirm w e.id (stamp e now) now c s
    unfolding handle_inbound_confirm
    inbound_accepts hash p = ground (arith, p)

    pub known-Again :
        (hash : String)
        → is_some c.peer_confirmed_at ≡ true
        → Again from e
            (opened (verify_confirm hash))
            later
            (receive_content w c e (verify_confirm hash) now s)
    unfolding receive_from receive_content
    known-Again hash p =
        let once = receive_content w c e (verify_confirm hash) now s in
        (
          c,
          still_found once (shown-inbound_known c hash e.id (stamp e now) now s p),
          free,
          of_shown (receive_content w c e (verify_confirm hash) later once) once
              (shown-inbound_known c hash e.id (stamp e later) later once p),
        )

    pub first-Again :
        (hash : String)
        → proves_scan w s.account hash ≡ true
        → is_some c.peer_confirmed_at ≡ false
        → Again from e
            (opened (verify_confirm hash))
            later
            (receive_content w c e (verify_confirm hash) now s)
    unfolding receive_from receive_content set_peer_confirmed
    first-Again hash p q =
        let once = receive_content w c e (verify_confirm hash) now s in
        let table =
          ap (λ (x : Store). x.contacts) (inbound_accepts hash p)
          ∙ contacts-accept_confirm e.id (stamp e now) now c s q in
        (
          confirm_peer now c,
          ap (get_contact_by_handle from) table
              ∙ after_update from c.id (confirm_peer now) s.contacts c (λ x. refl) found refl,
          free,
          of_shown (receive_content w (confirm_peer now c) e (verify_confirm hash) later once) once
              (shown-inbound_known (confirm_peer now c) hash e.id (stamp e later) later once refl),
        )
