-- ===== src/Messaging/Pairing.antt =====
-- Two devices that verify each other, by src/services/verification.ts and src/services/messaging.ts.
use nuco_messenger.Db.Contacts.{
  ContactRow, ContactStatus, confirm_local, confirm_peer, get_contact_by_handle,
  is_mutually_verified,
}
use nuco_messenger.Messaging.Confirms.{confirm_verification}
use nuco_messenger.Messaging.Handshake.{
  IsScanOf, Knows, hear_lem, hear_quietly, last_sent, press_lem, proof_to,
}
use nuco_messenger.Messaging.Receiving.{Envelope, opened, receive_envelope}
use nuco_messenger.Messaging.Store.{Account, Store, World}
use nuco_messenger.Prelude.{String, ap, false, none, refl, some, subst, true, ℕ, ◌∙◌, ◌≡◌}
use nuco_messenger.Prelude.Keys.{has}

-- Neither side of the pair has confirmed, and no confirm has left in this run.
abbrev pub IsPending : ContactRow → Store → Type 0
IsPending c s =
    (c.local_confirmed_at ≡ none)
    × (c.peer_confirmed_at ≡ none)
    × (has c.handle s.sent_this_run ≡ false)

-- The contact with the handle is mutually verified.
abbrev pub IsUnlocked : String → Store → Type 0
IsUnlocked h s =
    (r : ContactRow) × (get_contact_by_handle h s.contacts ≡ some r)
    × (is_mutually_verified r ≡ true)
    × (r.status ≡ ContactStatus.verified)

IsUnlocked-known :
    (o : Account) (h : String) (c : ContactRow) (s : Store)
    → Knows o c s
    → c.handle ≡ h
    → is_mutually_verified c ≡ true
    → c.status ≡ ContactStatus.verified
    → IsUnlocked h s
IsUnlocked-known o h c s k e m v =
    (c, subst (λ x. get_contact_by_handle x s.contacts ≡ some c) e k.row, m, v)

module _ (w : World) (a b : Account) (rb ra : ContactRow) (sa sb : Store) (known_a : Knows a rb sa)
    (known_b : Knows b ra sb) (scan_b : IsScanOf b rb) (scan_a : IsScanOf a ra)
    (pending_a : IsPending rb sa) (pending_b : IsPending ra sb) where
  -- Two accounts that have scanned each other's cards, each with an unlocked device, a session, and the
  -- other's row without a confirm and not blocked: one presses, the other receives its confirm, presses
  -- as well, and the first receives that confirm. Each press sends the confirm that the peer awaits, and
  -- then both contacts are mutually verified.
  pub pair_in_turn :
      (na nb : String) (ea eb : Envelope) (t1 t2 t3 t4 : ℕ)
      → let first = confirm_verification w na t1 rb sa in
        let told = receive_envelope w ra.handle ea (opened (proof_to w b)) t2 sb in
        let second = confirm_verification w nb t3 (confirm_peer t2 ra) told in
        let done = receive_envelope w rb.handle eb (opened (proof_to w a)) t4 first in
        (last_sent first ≡ some (b.handle, proof_to w b))
        × (last_sent second ≡ some (a.handle, proof_to w a))
        × IsUnlocked b.handle done
        × IsUnlocked a.handle second
  pair_in_turn na nb ea eb t1 t2 t3 t4 =
      let (local_a, peer_a, unsent_a) = pending_a in
      let (local_b, peer_b, unsent_b) = pending_b in
      let first = confirm_verification w na t1 rb sa in
      let told = receive_envelope w ra.handle ea (opened (proof_to w b)) t2 sb in
      let (knows_first, left_first) = press_lem w na t1 a b rb sa known_a scan_b unsent_a in
      let knows_told = hear_lem w ea t2 b ra sb known_b peer_b in
      let quiet = hear_quietly w ea t2 b ra sb known_b peer_b local_b in
      let (knows_second, left_second) =
        press_lem w nb t3 b a (confirm_peer t2 ra) told knows_told scan_a
          (ap (has ra.handle) quiet ∙ unsent_b) in
      let knows_done = hear_lem w eb t4 a (confirm_local na t1 rb) first knows_first peer_a in
      (
        left_first ∙ ap (λ h. some (h, proof_to w b)) scan_b.0,
        left_second ∙ ap (λ h. some (h, proof_to w a)) scan_a.0,
        IsUnlocked-known a b.handle (confirm_peer t4 (confirm_local na t1 rb))
            (receive_envelope w rb.handle eb (opened (proof_to w a)) t4 first) knows_done scan_b.0
            refl refl,
        IsUnlocked-known b a.handle (confirm_local nb t3 (confirm_peer t2 ra))
            (confirm_verification w nb t3 (confirm_peer t2 ra) told) knows_second scan_a.0 refl
            refl,
      )
