-- ===== src/Messaging/Confirms.antt =====
-- src/services/verification.ts: the mutual verification. `sendConfirm` is cut at its await: `start` hands
-- the confirm over, and `settle` is what its promise does when it ends, whenever that is.
use nuco_messenger.Call.Types.{Direction, incoming, outgoing}
use nuco_messenger.Db.Contacts.{
  ContactRow, Contacts, list_contacts, set_local_confirmed, set_peer_confirmed,
}
use nuco_messenger.Db.Messages.{is_inbound, verified}
use nuco_messenger.Messaging.Gate.{envelope_for, send_content}
use nuco_messenger.Messaging.Store.{
  Account, Content, Store, World, device_of, draw, drop_error, verify_confirm, with_device,
}
use nuco_messenger.Negotiation.State.{found_on, insert_system_message}
use nuco_messenger.Prelude.{
  Bool, Option, String, [], if◌then◌else◌, is_some, none, not, some, str_eq, ℕ, ◌&&◌, ◌∷◌,
}
use nuco_messenger.Prelude.Keys.{add, delete, has}

-- `computeCardHash` of the own card.
abbrev pub own_hash : World → Account → String
own_hash w a = w.card_hash a.handle a.identity_key a.spk_pub a.kyber_pub

-- `forgetConfirmState`.
unfoldable pub forget_confirm_state : String → Store → Store
forget_confirm_state h s = record s {
  sent_this_run = delete h s.sent_this_run;
  confirm_errors = drop_error h s.confirm_errors;
}

abbrev pub unguard : String → Store → Store
unguard h s = record s { sent_this_run = delete h s.sent_this_run }

-- `insertVerifiedSystemRow`.
unfoldable pub insert_verified_row : String → String → ℕ → Direction → ℕ → Store → Store
unfolding found_on insert_system_message
insert_verified_row c key at direction now s =
    let (convo, ensured) = found_on c now (device_of s) in
    with_device s (
      insert_system_message key c verified direction none convo.retention_seconds at now
        (not (is_inbound direction)) ensured)

abbrev generic : String
generic = "generic"

abbrev error_text : String → String
error_text e = if str_eq e "" then generic else e

module _ (w : World) where
  -- The confirm of a contact whose card was scanned: none for a row without the card's prekeys.
  unfoldable pub proof_for : ContactRow → Option Content
  proof_for c = elim c.card_spk_pub [
    | none ↦ none
    | some spk ↦ elim c.card_kyber_pub [
      | none ↦ none
      | some kyber ↦ some (verify_confirm (w.card_hash c.handle c.identity_pubkey spk kyber))
    ]
  ]

  abbrev hand_over : ℕ → ContactRow → Content → Store → Store
  hand_over now c proof s =
      let (id, drawn) = draw w (record s { sent_this_run = add c.handle s.sent_this_run }) in
      (send_content w now c.handle proof id drawn).0

  -- `sendConfirm` up to its await.
  unfoldable pub start_confirm : ℕ → ContactRow → Store → Store
  unfolding proof_for send_content
  start_confirm now c s = elim (proof_for c) [
    | none ↦ s
    | some proof ↦ if has c.handle s.sent_this_run then s else hand_over now c proof s
  ]

  -- `sendConfirm` after its await: none is success, and otherwise the message of the error.
  unfoldable pub settle_confirm : String → Option String → Store → Store
  settle_confirm h none s = record s { confirm_errors = drop_error h s.confirm_errors }
  settle_confirm h (some e) s = record s {
    sent_this_run = delete h s.sent_this_run;
    confirm_errors = (h, error_text e) ∷ drop_error h s.confirm_errors;
  }

  -- `sendConfirm` when it is awaited and nothing else happens before its promise ends.
  unfoldable pub send_confirm : ℕ → ContactRow → Store → Store
  unfolding proof_for send_content settle_confirm
  send_confirm now c s = elim (proof_for c) [
    | none ↦ s
    | some proof ↦
        if has c.handle s.sent_this_run
        then s
        else settle_confirm c.handle
            (w.net (envelope_for w now c.handle proof (w.fresh_id s.draws)))
            (hand_over now c proof s)
  ]

  -- `retryConfirm`.
  unfoldable pub retry_confirm : ℕ → ContactRow → Store → Store
  unfolding send_confirm forget_confirm_state
  retry_confirm now c s = send_confirm now c (forget_confirm_state c.handle s)

  -- The own press completes a pair that the peer has confirmed.
  abbrev pub log_own_unlock : ℕ → ContactRow → Store → Store
  log_own_unlock now c s =
      if is_some c.peer_confirmed_at
      then (let (id, drawn) = draw w s in insert_verified_row c.id id now outgoing now drawn)
      else s

  -- `confirmVerification`, the SAS press; `number` is the safety number of the pair.
  unfoldable pub confirm_verification : String → ℕ → ContactRow → Store → Store
  unfolding start_confirm insert_verified_row
  confirm_verification number now c s = elim s.account [
    | none ↦ s
    | some account ↦
        let pressed =
          log_own_unlock now c
            (record s { contacts = set_local_confirmed c.id number now s.contacts }) in
        if has c.handle pressed.sessions
        then start_confirm now (record c { local_confirmed_at = some now }) pressed
        else pressed
  ]

  -- The answer to a confirm, past the once-per-run guard.
  unfoldable pub answer_confirm : ℕ → ContactRow → Store → Store
  unfolding start_confirm
  answer_confirm now c s =
      if is_some c.local_confirmed_at then start_confirm now c (unguard c.handle s) else s

  abbrev pub log_peer_unlock : String → ℕ → ℕ → ContactRow → Store → Store
  log_peer_unlock key at now c s =
      if is_some c.local_confirmed_at then insert_verified_row c.id key at incoming now s else s

  -- A confirm that proves the scan of the own card.
  unfoldable pub accept_confirm : String → ℕ → ℕ → ContactRow → Store → Store
  unfolding answer_confirm insert_verified_row
  accept_confirm key at now c s =
      if is_some c.peer_confirmed_at
      then answer_confirm now c s
      else answer_confirm now c (
          log_peer_unlock key at now c
            (record s { contacts = set_peer_confirmed c.id now s.contacts }))

  -- `handleInboundConfirm`.
  unfoldable pub handle_inbound_confirm : ContactRow → String → String → ℕ → ℕ → Store → Store
  unfolding accept_confirm
  handle_inbound_confirm c hash key at now s = elim s.account [
    | none ↦ s
    | some account ↦ if str_eq hash (own_hash w account) then accept_confirm key at now c s else s
  ]

  abbrev pub awaits_peer : ContactRow → Bool
  awaits_peer c = is_some c.local_confirmed_at && not (is_some c.peer_confirmed_at)

  -- `flushDeferredConfirm`.
  unfoldable pub flush_deferred_confirm : ℕ → ContactRow → Store → Store
  unfolding send_confirm
  flush_deferred_confirm now c s = if awaits_peer c then send_confirm now c s else s

  -- One round of `resendPendingConfirms`.
  unfoldable pub resend_confirm : ℕ → ContactRow → Store → Store
  unfolding send_confirm
  resend_confirm now c s =
      if not c.is_blocked && awaits_peer c && has c.handle s.sessions
      then send_confirm now c (unguard c.handle s)
      else s

  unfoldable pub resend_confirms : ℕ → Contacts → Store → Store
  unfolding resend_confirm
  resend_confirms now [] s = s
  resend_confirms now (c ∷ cs) s = resend_confirms now cs (resend_confirm now c s)

  -- `resendPendingConfirms`, when nothing else happens between its sends.
  unfoldable pub resend_pending_confirms : ℕ → Store → Store
  unfolding resend_confirms
  resend_pending_confirms now s =
      if s.is_unlocked then resend_confirms now (list_contacts w.collates s.contacts) s else s
