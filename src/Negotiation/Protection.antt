-- ===== src/Negotiation/Protection.antt =====
-- Two devices that negotiate the screenshot protection of their conversation.
use nuco_messenger.Db.Conversations.{
  Conversation, pend_screenshot, set_screenshot_pending, set_screenshot_protection,
  settle_screenshot,
}
use nuco_messenger.Negotiation.Agreement.{Holds, HoldsPeer, ensured_lem, found_lem, updated}
use nuco_messenger.Negotiation.Screenshot.{
  accept_screenshot, agree_screenshot, ask_screenshot, own_shot_pending, peer_shot_pending,
  receive_screenshot_accept, receive_screenshot_request, request_screenshot,
}
use nuco_messenger.Negotiation.State.{
  Device, insert_system_message, screenshot_accepts, screenshot_asks,
}
use nuco_messenger.Prelude.{Bool, String, ap, false, none, refl, true, ℕ, ◌∙◌, ◌∷◌, ◌≡◌}

module _ (c : String) where
  pub request_screenshot-Holds :
      (key : String) (value : Bool) (now : ℕ) (d : Device) (r : Conversation)
      → HoldsPeer c r d
      → own_shot_pending r ≡ false
      → let e = request_screenshot c key value now d in
        Holds c (pend_screenshot value false r) e × (e.outbox ≡ screenshot_asks value ∷ d.outbox)
  unfolding request_screenshot ask_screenshot insert_system_message set_screenshot_pending
  request_screenshot-Holds key value now d r (e, f) free =
      rw (ensured_lem c now d r (e, f), request_screenshot, free)
        (updated c (pend_screenshot value false) d.conversations r (λ x. refl) e, refl)

  pub receive_screenshot_request-Holds :
      (key : String) (value : Bool) (at now : ℕ) (d : Device) (r : Conversation)
      → Holds c r d
      → let e = receive_screenshot_request c key value at now d in
        Holds c (pend_screenshot value true r) e × (e.outbox ≡ d.outbox)
  unfolding receive_screenshot_request insert_system_message set_screenshot_pending
  receive_screenshot_request-Holds key value at now d r e =
      rw (found_lem c now d r e, receive_screenshot_request)
        (updated c (pend_screenshot value true) d.conversations r (λ x. refl) e, refl)

  pub accept_screenshot-Holds :
      (key : String) (value : Bool) (now : ℕ) (d : Device) (r : Conversation)
      → Holds c r d
      → peer_shot_pending r ≡ true
      → let e = accept_screenshot c key value now d in
        Holds c (settle_screenshot value r) e × (e.outbox ≡ screenshot_accepts value ∷ d.outbox)
  unfolding accept_screenshot agree_screenshot insert_system_message set_screenshot_protection
  accept_screenshot-Holds key value now d r e pending =
      rw (e, accept_screenshot, pending)
        (updated c (settle_screenshot value) d.conversations r (λ x. refl) e, refl)

  pub receive_screenshot_accept-Holds :
      (key : String) (value : Bool) (at now : ℕ) (d : Device) (r : Conversation)
      → Holds c r d
      → let e = receive_screenshot_accept c key value at now d in
        Holds c (settle_screenshot value r) e × (e.outbox ≡ d.outbox)
  unfolding receive_screenshot_accept insert_system_message set_screenshot_protection
  receive_screenshot_accept-Holds key value at now d r e =
      rw (found_lem c now d r e, receive_screenshot_accept)
        (updated c (settle_screenshot value) d.conversations r (λ x. refl) e, refl)

-- The row with the protection on or off, and no request pending.
abbrev pub protected : Bool → Conversation → Conversation
protected on r = record r {
  screenshot_protection = on;
  screenshot_pending = false;
  screenshot_pending_value = none;
  screenshot_pending_incoming = false;
}

-- Two devices, each with its row for the other; the device `a` has no own request pending. `c` is the peer's id on the
-- device `a`, and `b_c` on the device `b`.
module _ (c b_c : String) (a b : Device) (r q : Conversation) (a_holds : HoldsPeer c r a)
    (b_holds : HoldsPeer b_c q b) (a_free : own_shot_pending r ≡ false) where
  -- If the device `a`, with no own request pending, asks for screenshot protection to be on or off and
  -- the other accepts, each message being received in between, both settle on what was asked with
  -- nothing pending, and each has sent the one message.
  pub screenshot_agrees :
      (value : Bool) (t : ℕ) (k1 k2 k3 k4 : String)
      → let a1 = request_screenshot c k1 value t a in
        let b1 = receive_screenshot_request b_c k2 value t t b in
        let b2 = accept_screenshot b_c k3 value t b1 in
        let a2 = receive_screenshot_accept c k4 value t t a1 in
        Holds c (protected value r) a2
        × Holds b_c (protected value q) b2
        × (a2.outbox ≡ screenshot_asks value ∷ a.outbox)
        × (b2.outbox ≡ screenshot_accepts value ∷ b.outbox)
  screenshot_agrees value t k1 k2 k3 k4 =
      let (x1, o1) = request_screenshot-Holds c k1 value t a r a_holds a_free in
      let (y1, p1) = receive_screenshot_request-Holds b_c k2 value t t b q b_holds.0 in
      let (y2, p2) = accept_screenshot-Holds b_c k3 value t _ _ y1 refl in
      let (x2, o2) = receive_screenshot_accept-Holds c k4 value t t _ _ x1 in
      (x2, y2, o2 ∙ o1, p2 ∙ ap (λ o. screenshot_accepts value ∷ o) p1)
