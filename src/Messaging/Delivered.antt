-- ===== src/Messaging/Delivered.antt =====
-- `doReceiveEnvelope` of src/services/messaging.ts on an envelope that is delivered twice.
use nuco_messenger.Db.Contacts.{
  ContactRow, get_contact_by_handle, is_mutually_verified, set_contact_name,
}
use nuco_messenger.Db.Conversations.{Conversation, get_conversation}
use nuco_messenger.Messaging.AtLeastOnce.{Again, after_update}
use nuco_messenger.Messaging.Controls.{Does-known, control-Does, effect, found_on-known}
use nuco_messenger.Messaging.Gate.{is_confirm}
use nuco_messenger.Messaging.Receiving.{
  Envelope, ack, opened, receive_content, receive_control, receive_delete, receive_from,
  receive_name, receive_text, route, stamp,
}
use nuco_messenger.Messaging.Redelivery.{Tables, is_name, route-again, routed, tables, text-Inserts}
use nuco_messenger.Messaging.Store.{
  Content, Store, World, control, device_of, profile_name, text_content,
}
use nuco_messenger.Prelude.{
  Bool, Bool-cases, String, ap, arith, eq_refl, false, inl, inr, refl, some, str_eq, true, ℕ, ◌||◌,
  ◌∙◌, ◌≡◌,
}

module _ (w : World) where
  contacts-route :
      (c : ContactRow) (e : Envelope) (content : Content) (now : ℕ) (s : Store)
      → is_name content ≡ false
      → (route w c e content now s).contacts ≡ s.contacts
  unfolding route receive_text receive_delete
  contacts-route c e (profile_name name) now s n = cc
  contacts-route c e (text_content body reply) now s n = refl
  contacts-route c e _ now s n = refl

  conversation-route :
      (c : ContactRow) (e : Envelope) (content : Content) (now : ℕ) (s : Store) (r : Conversation)
      → is_name content ≡ false
      → get_conversation c.id s.conversations ≡ some r
      → (q : Conversation) × (get_conversation c.id (route w c e content now s).conversations
          ≡ some q)
  unfolding route receive_delete
  conversation-route c e (profile_name name) now s r n h = cc
  conversation-route c e (text_content body reply) now s r n h = (
    r,
    ap (λ (x : Tables). get_conversation c.id x.conversations)
          (text-Inserts w c e body reply now s r h).2
        ∙ h,
  )
  conversation-route c e (control k) now s r n h =
      let d = device_of s in
      let after = receive_control w k c.id e.id (stamp e now) now d in
      (
        effect k r,
        Does-known w c.id e.id k d after r h (control-Does w c.id e.id k (stamp e now) now d r h),
      )
  conversation-route c e _ now s r n h = (r, h)

  -- The acknowledgements do not matter to a branch.
  tables-route-ack :
      (c : ContactRow) (e : Envelope) (content : Content) (now : ℕ) (s : Store)
      → is_name content ≡ false
      → tables (route w c e content now (ack e s)) ≡ tables (route w c e content now s)
  unfolding route receive_text receive_delete
  tables-route-ack c e (profile_name name) now s n = cc
  tables-route-ack c e (text_content body reply) now s n = refl
  tables-route-ack c e _ now s n = refl

  abbrev is_old_name : ContactRow → String → Bool
  is_old_name c name = str_eq name "" || str_eq name c.display_name

  name_kept :
      (c : ContactRow) (e : Envelope) (name : String) (now : ℕ) (s : Store)
      → is_old_name c (w.trim name) ≡ true
      → receive_name w c e name now s ≡ s
  unfolding receive_name
  name_kept c e name now s o = ground (arith, o)

  name_set :
      (c : ContactRow) (e : Envelope) (name : String) (now : ℕ) (s : Store) (r : Conversation)
      → is_old_name c (w.trim name) ≡ false
      → get_conversation c.id s.conversations ≡ some r
      → let after = receive_name w c e name now s in
        (after.contacts ≡ set_contact_name c.id (w.trim name) s.contacts)
        × (after.conversations ≡ s.conversations)
  unfolding receive_name
  name_set c e name now s r o h = rw (o, found_on-known c.id now (device_of s) r h) (refl, refl)

  module _ (from : String) (e : Envelope) (now later : ℕ) (c : ContactRow) (s : Store)
      (found : get_contact_by_handle from s.contacts ≡ some c) (free : c.is_blocked ≡ false)
      (r : Conversation) (known : get_conversation c.id s.conversations ≡ some r)
      (v : is_mutually_verified c ≡ true) where
    pub routed-Again :
        (content : Content)
        → is_confirm content ≡ false
        → is_name content ≡ false
        → Again w from e (opened content) later (receive_content w c e content now s)
    unfolding receive_from
    routed-Again content n m =
        let there = route w c e content now s in
        let (q, still) = conversation-route c e content now s r m known in
        rw (routed w c e content now s r n v known) (
          c,
          ap (get_contact_by_handle from) (contacts-route c e content now s m) ∙ found,
          free,
          ap tables (routed w c e content later (ack e there) q n v still)
              ∙ tables-route-ack c e content later there m
              ∙ route-again w c e content now later s r m known,
        )

    pub name-Again :
        (name : String)
        → Again w from e
            (opened (profile_name name))
            later
            (receive_content w c e (profile_name name) now s)
    unfolding receive_from set_contact_name
    name-Again name =
        let there = receive_name w c e name now s in
        rw (routed w c e (profile_name name) now s r refl v known)
          (elim (Bool-cases (is_old_name c (w.trim name))) [
            | inl o ↦
                let same = name_kept c e name now s o in
                (
                  c,
                  ap (λ (x : Store). get_contact_by_handle from x.contacts) same ∙ found,
                  free,
                  ap tables (
                        routed w c e (profile_name name) later (ack e there) r refl v
                          (ap (λ (x : Store). get_conversation c.id x.conversations) same ∙ known))
                      ∙ ap tables (name_kept c e name later (ack e there) o),
                )
            | inr o ↦
                let (table, talks) = name_set c e name now s r o known in
                let renamed = record c { display_name = w.trim name } in
                (
                  renamed,
                  ap (get_contact_by_handle from) table
                      ∙ after_update from c.id (λ x. record x { display_name = w.trim name })
                          s.contacts c (λ x. refl) found refl,
                  free,
                  ap tables (
                        routed w renamed e (profile_name name) later (ack e there) r refl v
                          (ap (get_conversation c.id) talks ∙ known))
                      ∙ ap tables (
                          name_kept renamed e name later (ack e there)
                            (ground (arith, eq_refl (w.trim name)))),
                )
          ])
