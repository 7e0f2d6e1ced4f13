-- ===== src/Messaging/Controls.antt =====
-- The branches of `doReceiveEnvelope` of src/services/messaging.ts for the two negotiations, each as an
-- update of the conversation and a row of the timeline.
use nuco_messenger.Call.Types.{incoming}
use nuco_messenger.Db.Conversations.{
  Conversation, clear_retention_pending, clear_screenshot_pending, get_conversation,
  is_conversation, pend_retention, pend_screenshot, set_retention, set_retention_pending,
  set_screenshot_pending, set_screenshot_protection, settle_retention, settle_screenshot,
  unpend_retention, unpend_screenshot,
}
use nuco_messenger.Db.Messages.{Message, Messages, insert_message, is_message, retention_canceled}
use nuco_messenger.Messaging.Receiving.{receive_control}
use nuco_messenger.Messaging.Store.{World}
use nuco_messenger.Negotiation.Retention.{
  receive_retention_accept, receive_retention_cancel, receive_retention_request,
}
use nuco_messenger.Negotiation.Screenshot.{
  receive_screenshot_accept, receive_screenshot_cancel, receive_screenshot_request,
}
use nuco_messenger.Negotiation.State.{
  Control, Device, found_on, insert_system_message, retention_accepts, retention_asks,
  retention_cancels, screenshot_accepts, screenshot_asks, screenshot_cancels, system_row,
}
use nuco_messenger.Prelude.{
  Bool, Bool-cases, String, ap, eq_refl, false, if◌then◌else◌, inl, inr, none, refl, some, str_eq,
  subst, sym, true, ℕ, ◌∙◌, ◌≡◌,
}
use nuco_messenger.Prelude.Rows.{exists_row, first-modify, first_row, modify}
use nuco_messenger.Prelude.Twice.{exists-append_new, modify-again}

abbrev pub effect : Control → Conversation → Conversation
effect (retention_asks n) r = pend_retention n true r
effect (retention_accepts n) r = settle_retention n r
effect retention_cancels r = unpend_retention r
effect (screenshot_asks on) r = pend_screenshot on true r
effect (screenshot_accepts on) r = settle_screenshot on r
effect screenshot_cancels r = unpend_screenshot r

-- A cancel is logged if a change is pending.
abbrev pub logs : Control → Conversation → Bool
logs retention_cancels r = r.retention_pending
logs screenshot_cancels r = r.screenshot_pending
logs _ r = true

effect-again : (k : Control) (r : Conversation) → effect k (effect k r) ≡ effect k r
effect-again (retention_asks n) r = refl
effect-again _ r = refl

effect-id : (k : Control) (r : Conversation) → (effect k r).id ≡ r.id
effect-id (retention_asks n) r = refl
effect-id _ r = refl

logs-effect : (k : Control) (r : Conversation) → logs k r ≡ false → logs k (effect k r) ≡ false
logs-effect retention_cancels r e = refl
logs-effect screenshot_cancels r e = refl
logs-effect _ r e = e

pub insert_message-again :
    (m n : Message) (t : Messages)
    → n.id ≡ m.id
    → insert_message n (insert_message m t) ≡ insert_message m t
unfolding insert_message
insert_message-again m n t same = elim (Bool-cases (exists_row (is_message m.id) t)) [
  | inl e ↦ rw (e, same, e) refl
  | inr e ↦ rw (e, same, exists-append_new (is_message m.id) m t (eq_refl m.id)) refl
]

pub found_on-known :
    (c : String) (now : ℕ) (d : Device) (r : Conversation)
    → get_conversation c d.conversations ≡ some r
    → found_on c now d ≡ (r, d)
unfolding found_on
found_on-known c now d r e = rw (e, found_on) refl

abbrev pub SameTables : Device → Device → Type 0
SameTables d after = (after.conversations ≡ d.conversations) × (after.messages ≡ d.messages)

module _ (w : World) (c key : String) where
  -- The row is inserted, or nothing is.
  abbrev pub Logged : Bool → Message → Messages → Messages → Type 0
  Logged b row before after = after ≡ (if b then insert_message row before else before)

  -- What a control message does to the two tables.
  abbrev pub Does : Control → Conversation → Device → Device → Type 0
  Does k r d after =
      (after.conversations ≡ modify (is_conversation c) (effect k) d.conversations)
      × (row : Message) × (row.id ≡ key)
      × Logged (logs k r) row d.messages after.messages

  abbrev any_row : ℕ → ℕ → Message
  any_row at now = system_row key c retention_canceled incoming none 0 at now true

  asks_retention-Does :
      (n at now : ℕ) (d : Device) (r : Conversation)
      → get_conversation c d.conversations ≡ some r
      → Does (retention_asks n) r d (receive_retention_request w.print c key n at now d)
  unfolding receive_retention_request set_retention_pending insert_system_message
  asks_retention-Does n at now d r e = rw (found_on-known c now d r e) (refl, _, refl, refl)

  accepts_retention-Does :
      (n at now : ℕ) (d : Device) (r : Conversation)
      → get_conversation c d.conversations ≡ some r
      → Does (retention_accepts n) r d (receive_retention_accept w.print c key n at now d)
  unfolding receive_retention_accept set_retention insert_system_message
  accepts_retention-Does n at now d r e = rw (found_on-known c now d r e) (refl, _, refl, refl)

  cancels_retention-Does :
      (at now : ℕ) (d : Device) (r : Conversation)
      → get_conversation c d.conversations ≡ some r
      → Does retention_cancels r d (receive_retention_cancel w.print c key at now d)
  unfolding receive_retention_cancel clear_retention_pending insert_system_message
  cancels_retention-Does at now d r e = elim (Bool-cases r.retention_pending) [
    | inl p ↦ rw (found_on-known c now d r e, p) (refl, _, refl, refl)
    | inr p ↦ rw (found_on-known c now d r e, p) (refl, any_row at now, refl, refl)
  ]

  asks_screenshot-Does :
      (on : Bool) (at now : ℕ) (d : Device) (r : Conversation)
      → get_conversation c d.conversations ≡ some r
      → Does (screenshot_asks on) r d (receive_screenshot_request c key on at now d)
  unfolding receive_screenshot_request set_screenshot_pending insert_system_message
  asks_screenshot-Does on at now d r e = rw (found_on-known c now d r e) (refl, _, refl, refl)

  accepts_screenshot-Does :
      (on : Bool) (at now : ℕ) (d : Device) (r : Conversation)
      → get_conversation c d.conversations ≡ some r
      → Does (screenshot_accepts on) r d (receive_screenshot_accept c key on at now d)
  unfolding receive_screenshot_accept set_screenshot_protection insert_system_message
  accepts_screenshot-Does on at now d r e = rw (found_on-known c now d r e) (refl, _, refl, refl)

  cancels_screenshot-Does :
      (at now : ℕ) (d : Device) (r : Conversation)
      → get_conversation c d.conversations ≡ some r
      → Does screenshot_cancels r d (receive_screenshot_cancel c key at now d)
  unfolding receive_screenshot_cancel clear_screenshot_pending insert_system_message
  cancels_screenshot-Does at now d r e = elim (Bool-cases r.screenshot_pending) [
    | inl p ↦ rw (found_on-known c now d r e, p) (refl, _, refl, refl)
    | inr p ↦ rw (found_on-known c now d r e, p) (refl, any_row at now, refl, refl)
  ]

  pub control-Does :
      (k : Control) (at now : ℕ) (d : Device) (r : Conversation)
      → get_conversation c d.conversations ≡ some r
      → Does k r d (receive_control w k c key at now d)
  control-Does (retention_asks n) at now d r e = asks_retention-Does n at now d r e
  control-Does (retention_accepts n) at now d r e = accepts_retention-Does n at now d r e
  control-Does retention_cancels at now d r e = cancels_retention-Does at now d r e
  control-Does (screenshot_asks on) at now d r e = asks_screenshot-Does on at now d r e
  control-Does (screenshot_accepts on) at now d r e = accepts_screenshot-Does on at now d r e
  control-Does screenshot_cancels at now d r e = cancels_screenshot-Does at now d r e

  pub Does-known :
      (k : Control) (d after : Device) (r : Conversation)
      → get_conversation c d.conversations ≡ some r
      → Does k r d after
      → get_conversation c after.conversations ≡ some (effect k r)
  unfolding get_conversation
  Does-known k d after r e does =
      ap (first_row (is_conversation c)) does.0
      ∙ first-modify (is_conversation c) (effect k) (λ x. ap (λ i. str_eq i c) (effect-id k x))
          d.conversations r e

  Logged-twice :
      (k : Control) (r : Conversation) (row again : Message) (t once twice : Messages)
      → again.id ≡ row.id
      → Logged (logs k r) row t once
      → Logged (logs k (effect k r)) again once twice
      → twice ≡ once
  Logged-twice k r row again t once twice i first second = elim (Bool-cases (logs k (effect k r))) [
    | inr q ↦ subst (λ b. Logged b again once twice) q second
    | inl q ↦ elim (Bool-cases (logs k r)) [
      | inr p ↦ cc (logs-effect k r p, q)
      | inl p ↦
          let logged = subst (λ b. Logged b row t once) p first in
          subst (λ b. Logged b again once twice) q second
          ∙ ap (insert_message again) logged
          ∙ insert_message-again row again t i
          ∙ sym logged
    ]
  ]

  Does-twice :
      (k : Control) (d once twice : Device) (r : Conversation)
      → Does k r d once
      → Does k (effect k r) once twice
      → SameTables once twice
  Does-twice k d once twice r (t1, row, i, m1) (t2, again, j, m2) = (
    t2
        ∙ ap (modify (is_conversation c) (effect k)) t1
        ∙ modify-again (is_conversation c) (effect k) (effect k)
            (λ x. ap (λ i. str_eq i c) (effect-id k x)) (effect-again k) d.conversations
        ∙ sym t1,
    Logged-twice k r row again d.messages once.messages twice.messages (j ∙ sym i) m1 m2,
  )

  -- The same control message a second time, on a device with the tables that the first has left.
  pub control-again :
      (k : Control) (at at_later now later : ℕ) (d d' : Device) (r : Conversation)
      → get_conversation c d.conversations ≡ some r
      → SameTables (receive_control w k c key at now d) d'
      → SameTables d' (receive_control w k c key at_later later d')
  control-again k at at_later now later d d' r e (t, m) =
      let (t1, row, i, m1) = control-Does k at now d r e in
      let does : Does k r d d' = (t ∙ t1, row, i, m ∙ m1) in
      Does-twice k d d' (receive_control w k c key at_later later d') r does
        (control-Does k at_later later d' (effect k r) (Does-known k d d' r e does))
