-- ===== src/Negotiation/Agreement.antt =====
-- Two devices that negotiate the retention of their conversation.
use nuco_messenger.Db.Conversations.{
  Conversation, Conversations, ensure_conversation, get_conversation, get_conversation_by_contact,
  is_conversation, pend_retention, set_retention, set_retention_pending, settle_retention,
  update_conversation,
}
use nuco_messenger.Negotiation.Retention.{
  accept_retention, agree_retention, ask_retention, own_pending, peer_pending,
  receive_retention_accept, receive_retention_request, request_retention,
}
use nuco_messenger.Negotiation.State.{
  Device, ensure_on, found_on, insert_system_message, retention_accepts, retention_asks,
}
use nuco_messenger.Prelude.{
  Option, String, ap, false, none, refl, some, str_eq, sym, true, ℕ, ◌∙◌, ◌∷◌, ◌≡◌, ◌≢◌,
}
use nuco_messenger.Prelude.Rows.{first-modify}

module _ (c : String) where
  -- The device has this row for the peer, under the peer's id.
  abbrev pub Holds : Conversation → Device → Type 0
  Holds r d = get_conversation c d.conversations ≡ some r

  -- ... and finds the same row by the peer.
  abbrev pub HoldsPeer : Conversation → Device → Type 0
  HoldsPeer r d = Holds r d × (get_conversation_by_contact c d.conversations ≡ some r)

  pub updated :
      (f : Conversation → Conversation) (t : Conversations) (r : Conversation)
      → ((x : Conversation) → (f x).id ≡ x.id)
      → get_conversation c t ≡ some r
      → get_conversation c (update_conversation c f t) ≡ some (f r)
  unfolding get_conversation
  updated f t r same e =
      first-modify (is_conversation c) f (λ x. ap (λ k. str_eq k c) (same x)) t r e

  pub found_lem : (now : ℕ) (d : Device) (r : Conversation) → Holds r d → found_on c now d ≡ (r, d)
  unfolding found_on
  found_lem now d r e = rw (e, found_on) refl

  ensured_table :
      (now : ℕ) (t : Conversations) (r : Conversation)
      → get_conversation_by_contact c t ≡ some r
      → ensure_conversation c c 86400 now t ≡ (r, t)
  unfolding ensure_conversation
  ensured_table now t r f = rw (f, ensure_conversation) refl

  pub ensured_lem :
      (now : ℕ) (d : Device) (r : Conversation) → HoldsPeer r d → ensure_on c now d ≡ (r, d)
  unfolding ensure_on
  ensured_lem now d r (e, f) = rw (ensured_table now d.conversations r f, ensure_on) refl

module _ (print : ℕ → String) (c : String) where
  pub request-Holds :
      (key : String) (value now : ℕ) (d : Device) (r : Conversation)
      → HoldsPeer c r d
      → own_pending r ≡ false
      → let e = request_retention print c key value now d in
        Holds c (pend_retention value false r) e × (e.outbox ≡ retention_asks value ∷ d.outbox)
  unfolding request_retention ask_retention insert_system_message set_retention_pending
  request-Holds key value now d r (e, f) free =
      rw (ensured_lem c now d r (e, f), request_retention, free)
        (updated c (pend_retention value false) d.conversations r (λ x. refl) e, refl)

  pub receive_request-Holds :
      (key : String) (value at now : ℕ) (d : Device) (r : Conversation)
      → Holds c r d
      → let e = receive_retention_request print c key value at now d in
        Holds c (pend_retention value true r) e × (e.outbox ≡ d.outbox)
  unfolding receive_retention_request insert_system_message set_retention_pending
  receive_request-Holds key value at now d r e =
      rw (found_lem c now d r e, receive_retention_request)
        (updated c (pend_retention value true) d.conversations r (λ x. refl) e, refl)

  pub accept-Holds :
      (key : String) (value now : ℕ) (d : Device) (r : Conversation)
      → Holds c r d
      → peer_pending r ≡ true
      → let e = accept_retention print c key value now d in
        Holds c (settle_retention value r) e × (e.outbox ≡ retention_accepts value ∷ d.outbox)
  unfolding accept_retention agree_retention insert_system_message set_retention
  accept-Holds key value now d r e pending =
      rw (e, accept_retention, pending)
        (updated c (settle_retention value) d.conversations r (λ x. refl) e, refl)

  pub receive_accept-Holds :
      (key : String) (value at now : ℕ) (d : Device) (r : Conversation)
      → Holds c r d
      → let e = receive_retention_accept print c key value at now d in
        Holds c (settle_retention value r) e × (e.outbox ≡ d.outbox)
  unfolding receive_retention_accept insert_system_message set_retention
  receive_accept-Holds key value at now d r e =
      rw (found_lem c now d r e, receive_retention_accept)
        (updated c (settle_retention value) d.conversations r (λ x. refl) e, refl)

-- The row with the retention, and no request pending.
abbrev pub agreed : ℕ → Conversation → Conversation
agreed value r = record r {
  retention_seconds = value;
  retention_pending = false;
  retention_pending_value = none;
  retention_pending_incoming = false;
}

-- The retention that a table keeps for the peer.
abbrev pub kept_for : String → Conversations → Option ℕ
kept_for c t = elim (get_conversation c t) [ none ↦ none | some r ↦ some r.retention_seconds ]

kept_lem :
    (c : String) (t : Conversations) (r : Conversation)
    → get_conversation c t ≡ some r
    → kept_for c t ≡ some r.retention_seconds
kept_lem c t r h = rw (kept_for, h) refl

some_inj : (m n : ℕ) → some m ≡ some n → m ≡ n
some_inj m n e = cc e

-- Two devices, each with its row for the other; `c` is the peer's id on the device `a`, and `b_c` on
-- the device `b`.
module _ (print : ℕ → String) (c b_c : String) (a b : Device) (r q : Conversation)
    (a_holds : HoldsPeer c r a) (b_holds : HoldsPeer b_c q b) (a_free : own_pending r ≡ false) where
  -- If the device `a`, with no own request pending, asks for a retention and the other accepts, each
  -- message being received in between, both settle on the asked value with nothing pending, and each
  -- has sent the one message.
  pub retention_agrees :
      (value t : ℕ) (k1 k2 k3 k4 : String)
      → let a1 = request_retention print c k1 value t a in
        let b1 = receive_retention_request print b_c k2 value t t b in
        let b2 = accept_retention print b_c k3 value t b1 in
        let a2 = receive_retention_accept print c k4 value t t a1 in
        Holds c (agreed value r) a2
        × Holds b_c (agreed value q) b2
        × (a2.outbox ≡ retention_asks value ∷ a.outbox)
        × (b2.outbox ≡ retention_accepts value ∷ b.outbox)
  retention_agrees value t k1 k2 k3 k4 =
      let (x1, o1) = request-Holds print c k1 value t a r a_holds a_free in
      let (y1, p1) = receive_request-Holds print b_c k2 value t t b q b_holds.0 in
      let (y2, p2) = accept-Holds print b_c k3 value t _ _ y1 refl in
      let (x2, o2) = receive_accept-Holds print c k4 value t t _ _ x1 in
      (x2, y2, o2 ∙ o1, p2 ∙ ap (λ o. retention_accepts value ∷ o) p1)

  -- If both, with no own request pending, ask before they receive the other's request, each then accepts
  -- the other's, and the two accepts cross, each settles, with nothing pending, on the value that it asked
  -- for itself. If those are different values, the two devices keep different retentions.
  pub crossing_retentions_disagree :
      own_pending q ≡ false
      → (value wish t : ℕ) (k1 k2 k3 k4 l1 l2 l3 l4 : String)
      → let a1 = request_retention print c k1 value t a in
        let b1 = request_retention print b_c l1 wish t b in
        let a2 = receive_retention_request print c k2 wish t t a1 in
        let b2 = receive_retention_request print b_c l2 value t t b1 in
        let a3 = accept_retention print c k3 wish t a2 in
        let b3 = accept_retention print b_c l3 value t b2 in
        let a4 = receive_retention_accept print c k4 value t t a3 in
        let b4 = receive_retention_accept print b_c l4 wish t t b3 in
        Holds c (agreed value r) a4
        × Holds b_c (agreed wish q) b4
        × (value ≢ wish → kept_for c a4.conversations ≢ kept_for b_c b4.conversations)
        × (a4.outbox ≡ retention_accepts wish ∷ retention_asks value ∷ a.outbox)
        × (b4.outbox ≡ retention_accepts value ∷ retention_asks wish ∷ b.outbox)
  crossing_retentions_disagree b_free value wish t k1 k2 k3 k4 l1 l2 l3 l4 =
      let (x1, o1) = request-Holds print c k1 value t a r a_holds a_free in
      let (y1, p1) = request-Holds print b_c l1 wish t b q b_holds b_free in
      let (x2, o2) = receive_request-Holds print c k2 wish t t _ _ x1 in
      let (y2, p2) = receive_request-Holds print b_c l2 value t t _ _ y1 in
      let (x3, o3) = accept-Holds print c k3 wish t _ _ x2 refl in
      let (y3, p3) = accept-Holds print b_c l3 value t _ _ y2 refl in
      let (x4, o4) = receive_accept-Holds print c k4 value t t _ _ x3 in
      let (y4, p4) = receive_accept-Holds print b_c l4 wish t t _ _ y3 in
      (
        x4,
        y4,
        λ apart same.
            apart (some_inj value wish (sym (kept_lem c _ _ x4) ∙ same ∙ kept_lem b_c _ _ y4)),
        o4 ∙ o3 ∙ ap (λ o. retention_accepts wish ∷ o) (o2 ∙ o1),
        p4 ∙ p3 ∙ ap (λ o. retention_accepts value ∷ o) (p2 ∙ p1),
      )
