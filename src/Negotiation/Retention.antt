-- ===== src/Negotiation/Retention.antt =====
-- src/services/messaging.ts: `requestRetention`, `acceptRetention`, `cancelRetention`, and the branches of
-- `doReceiveEnvelope` for the peer's messages. `print` is `String` of a number; `key` is the fresh row
-- id, or the envelope's.
use nuco_messenger.Call.Types.{Direction, incoming, outgoing}
use nuco_messenger.Db.Conversations.{
  Conversation, clear_retention_pending, get_conversation, set_retention, set_retention_pending,
}
use nuco_messenger.Db.Messages.{
  MessageKind, retention_canceled, retention_changed, retention_declined, retention_request,
}
use nuco_messenger.Negotiation.State.{
  Device, change_conversations, ensure_on, found_on, insert_system_message, retention_accepts,
  retention_asks, retention_cancels, send_control,
}
use nuco_messenger.Prelude.{
  Bool, Option, String, false, if◌then◌else◌, none, not, some, true, ℕ, ◌&&◌,
}

abbrev pub own_pending : Conversation → Bool
own_pending r = r.retention_pending && not r.retention_pending_incoming

abbrev pub peer_pending : Conversation → Bool
peer_pending r = r.retention_pending && r.retention_pending_incoming

module _ (print : ℕ → String) (c : String) where
  abbrev log_retention :
      String → MessageKind → Direction → Option ℕ → ℕ → ℕ → ℕ → Bool → Device → Device
  log_retention key kind direction none retention at from seen d =
      insert_system_message key c kind direction none retention at from seen d
  log_retention key kind direction (some value) retention at from seen d =
      insert_system_message key c kind direction (some (print value)) retention at from seen d

  unfoldable pub ask_retention : String → ℕ → ℕ → Conversation → Device → Device
  ask_retention key value now convo d = send_control (retention_asks value) (
      log_retention key retention_request outgoing (some value) convo.retention_seconds now now true
        (change_conversations (set_retention_pending c value false) d))

  -- `requestRetention`.
  unfoldable pub request_retention : String → ℕ → ℕ → Device → Device
  unfolding ask_retention
  request_retention key value now d =
      let (convo, ensured) = ensure_on c now d in
      if own_pending convo then ensured else ask_retention key value now convo ensured

  unfoldable pub agree_retention : String → ℕ → ℕ → Device → Device
  agree_retention key value now d = send_control (retention_accepts value) (
      log_retention key retention_changed outgoing (some value) value now now true
        (change_conversations (set_retention c value) d))

  -- `acceptRetention`.
  unfoldable pub accept_retention : String → ℕ → ℕ → Device → Device
  unfolding agree_retention
  accept_retention key value now d = elim (get_conversation c d.conversations) [
    | none ↦ d
    | some convo ↦ if peer_pending convo then agree_retention key value now d else d
  ]

  abbrev own_end : Bool → MessageKind
  own_end true = retention_declined
  own_end false = retention_canceled

  abbrev log_own_end : String → ℕ → Option Conversation → Device → Device
  log_own_end key now none d = d
  log_own_end key now (some convo) d =
      if convo.retention_pending
      then log_retention key (own_end convo.retention_pending_incoming) outgoing none
          convo.retention_seconds now now true d
      else d

  -- `cancelRetention`.
  unfoldable pub cancel_retention : String → ℕ → Device → Device
  cancel_retention key now d = send_control retention_cancels (
      log_own_end key now (get_conversation c d.conversations)
        (change_conversations (clear_retention_pending c) d))

  -- The branch `retention/request`.
  unfoldable pub receive_retention_request : String → ℕ → ℕ → ℕ → Device → Device
  unfolding found_on
  receive_retention_request key value at now d =
      let (convo, ensured) = found_on c now d in
      log_retention key retention_request incoming (some value) convo.retention_seconds at now false
        (change_conversations (set_retention_pending c value true) ensured)

  -- The branch `retention/accept`.
  unfoldable pub receive_retention_accept : String → ℕ → ℕ → ℕ → Device → Device
  unfolding found_on
  receive_retention_accept key value at now d =
      let (convo, ensured) = found_on c now d in
      log_retention key retention_changed incoming (some value) value at now false
        (change_conversations (set_retention c value) ensured)

  abbrev peer_end : Bool → MessageKind
  peer_end true = retention_canceled
  peer_end false = retention_declined

  -- The branch `retention/cancel`.
  unfoldable pub receive_retention_cancel : String → ℕ → ℕ → Device → Device
  unfolding found_on
  receive_retention_cancel key at now d =
      let (convo, ensured) = found_on c now d in
      change_conversations (clear_retention_pending c) (
        if convo.retention_pending
        then log_retention key (peer_end convo.retention_pending_incoming) incoming none
            convo.retention_seconds at now convo.retention_pending_incoming ensured
        else ensured)
