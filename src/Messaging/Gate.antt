-- ===== src/Messaging/Gate.antt =====
-- src/services/messaging.ts: `sendContent`, the one gate through which content leaves the device, with
-- `wakeHintFor` and `sendControl`.
use nuco_messenger.Call.Types.{offer}
use nuco_messenger.Db.Contacts.{ContactRow, get_contact_by_handle, is_mutually_verified}
use nuco_messenger.Messaging.Store.{
  Content, Outgoing, Store, WakeHint, World, alert, call_content, control, draw, image_content,
  silent, text_content, verify_confirm, voip,
}
use nuco_messenger.Negotiation.State.{
  retention_accepts, retention_asks, screenshot_accepts, screenshot_asks,
}
use nuco_messenger.Prelude.{
  Bool, Option, String, false, if◌then◌else◌, none, some, true, ℕ, ◌||◌, ◌∷◌,
}

unfoldable pub wake_hint_for : Content → WakeHint
wake_hint_for (text_content body reply) = alert
wake_hint_for (image_content t) = alert
wake_hint_for (control (retention_asks n)) = alert
wake_hint_for (control (retention_accepts n)) = alert
wake_hint_for (control (screenshot_asks b)) = alert
wake_hint_for (control (screenshot_accepts b)) = alert
wake_hint_for (call_content (offer id sdp)) = voip
wake_hint_for _ = silent

abbrev pub is_confirm : Content → Bool
is_confirm (verify_confirm hash) = true
is_confirm _ = false

abbrev pub is_verified_one : Option ContactRow → Bool
is_verified_one none = false
is_verified_one (some c) = is_mutually_verified c

-- Only a confirm may leave for a contact that is not mutually verified.
unfoldable pub may_send : String → Content → Store → Bool
unfolding get_contact_by_handle
may_send handle content s =
    is_confirm content || is_verified_one (get_contact_by_handle handle s.contacts)

module _ (w : World) (now : ℕ) where
  abbrev pub envelope_for : String → Content → String → Outgoing
  envelope_for handle content id = record {
    handle = handle;
    content = content;
    id = id;
    sent_at = now;
    wake = wake_hint_for content;
  }

  abbrev not_verified : String
  not_verified = "contact not mutually verified"

  -- `sendContent`: the store with what passed the gate, and the message of the error if it throws.
  unfoldable pub send_content : String → Content → String → Store → Store × Option String
  unfolding may_send wake_hint_for
  send_content handle content id s =
      if may_send handle content s
      then (
        record s { wire = envelope_for handle content id ∷ s.wire },
        w.net (envelope_for handle content id),
      )
      else (s, some not_verified)

  -- `sendControl`: an error is dropped.
  unfoldable pub send_control_to : String → Content → Store → Store
  unfolding send_content
  send_control_to handle content s =
      let (id, drawn) = draw w s in (send_content handle content id drawn).0
