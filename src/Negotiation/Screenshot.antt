-- ===== src/Negotiation/Screenshot.antt =====
-- src/services/messaging.ts: `requestScreenshotProtection`, `acceptScreenshotProtection`,
-- `cancelScreenshotProtection`, and the branches of `doReceiveEnvelope` for the peer's messages.
use nuco_messenger.Call.Types.{Direction, incoming, outgoing}
use nuco_messenger.Db.Conversations.{
  Conversation, clear_screenshot_pending, get_conversation, set_screenshot_pending,
  set_screenshot_protection,
}
use nuco_messenger.Db.Messages.{
  MessageKind, screenshot_canceled, screenshot_changed, screenshot_declined, screenshot_request,
}
use nuco_messenger.Negotiation.State.{
  Device, change_conversations, ensure_on, found_on, insert_system_message, screenshot_accepts,
  screenshot_asks, screenshot_cancels, send_control,
}
use nuco_messenger.Prelude.{
  Bool, Option, String, false, if◌then◌else◌, none, not, some, true, ℕ, ◌&&◌,
}

abbrev flag : Bool → String
flag true = "1"
flag false = "0"

abbrev pub own_shot_pending : Conversation → Bool
own_shot_pending r = r.screenshot_pending && not r.screenshot_pending_incoming

abbrev pub peer_shot_pending : Conversation → Bool
peer_shot_pending r = r.screenshot_pending && r.screenshot_pending_incoming

module _ (c : String) where
  abbrev log_screenshot :
      String → MessageKind → Direction → Option Bool → ℕ → ℕ → ℕ → Bool → Device → Device
  log_screenshot key kind direction none retention at from seen d =
      insert_system_message key c kind direction none retention at from seen d
  log_screenshot key kind direction (some value) retention at from seen d =
      insert_system_message key c kind direction (some (flag value)) retention at from seen d

  unfoldable pub ask_screenshot : String → Bool → ℕ → Conversation → Device → Device
  ask_screenshot key value now convo d = send_control (screenshot_asks value) (
      log_screenshot key screenshot_request outgoing (some value) convo.retention_seconds now now
        true (change_conversations (set_screenshot_pending c value false) d))

  -- `requestScreenshotProtection`.
  unfoldable pub request_screenshot : String → Bool → ℕ → Device → Device
  unfolding ask_screenshot
  request_screenshot key value now d =
      let (convo, ensured) = ensure_on c now d in
      if own_shot_pending convo then ensured else ask_screenshot key value now convo ensured

  unfoldable pub agree_screenshot : String → Bool → ℕ → Conversation → Device → Device
  agree_screenshot key value now convo d = send_control (screenshot_accepts value) (
      log_screenshot key screenshot_changed outgoing (some value) convo.retention_seconds now now
        true (change_conversations (set_screenshot_protection c value) d))

  -- `acceptScreenshotProtection`.
  unfoldable pub accept_screenshot : String → Bool → ℕ → Device → Device
  unfolding agree_screenshot
  accept_screenshot key value now d = elim (get_conversation c d.conversations) [
    | none ↦ d
    | some convo ↦ if peer_shot_pending convo then agree_screenshot key value now convo d else d
  ]

  abbrev own_shot_end : Bool → MessageKind
  own_shot_end true = screenshot_declined
  own_shot_end false = screenshot_canceled

  abbrev log_own_shot_end : String → ℕ → Option Conversation → Device → Device
  log_own_shot_end key now none d = d
  log_own_shot_end key now (some convo) d =
      if convo.screenshot_pending
      then log_screenshot key (own_shot_end convo.screenshot_pending_incoming) outgoing none
          convo.retention_seconds now now true d
      else d

  -- `cancelScreenshotProtection`.
  unfoldable pub cancel_screenshot : String → ℕ → Device → Device
  cancel_screenshot key now d = send_control screenshot_cancels (
      log_own_shot_end key now (get_conversation c d.conversations)
        (change_conversations (clear_screenshot_pending c) d))

  -- The branch `screenshot/request`.
  unfoldable pub receive_screenshot_request : String → Bool → ℕ → ℕ → Device → Device
  unfolding found_on
  receive_screenshot_request key value at now d =
      let (convo, ensured) = found_on c now d in
      log_screenshot key screenshot_request incoming (some value) convo.retention_seconds at now
        false (change_conversations (set_screenshot_pending c value true) ensured)

  -- The branch `screenshot/accept`.
  unfoldable pub receive_screenshot_accept : String → Bool → ℕ → ℕ → Device → Device
  unfolding found_on
  receive_screenshot_accept key value at now d =
      let (convo, ensured) = found_on c now d in
      log_screenshot key screenshot_changed incoming (some value) convo.retention_seconds at now
        false (change_conversations (set_screenshot_protection c value) ensured)

  abbrev peer_shot_end : Bool → MessageKind
  peer_shot_end true = screenshot_canceled
  peer_shot_end false = screenshot_declined

  -- The branch `screenshot/cancel`.
  unfoldable pub receive_screenshot_cancel : String → ℕ → ℕ → Device → Device
  unfolding found_on
  receive_screenshot_cancel key at now d =
      let (convo, ensured) = found_on c now d in
      change_conversations (clear_screenshot_pending c) (
        if convo.screenshot_pending
        then log_screenshot key (peer_shot_end convo.screenshot_pending_incoming) incoming none
            convo.retention_seconds at now convo.screenshot_pending_incoming ensured
        else ensured)
