-- ===== src/Call/Laws/Glare.antt =====
-- The controller of src/calls/controller.ts when both sides call each other at once. `wins` is the
-- protocol package's `callOfferWins`.
use nuco_messenger.Call.Invariant.Recent.{has-remember}
use nuco_messenger.Call.Laws.Told.{told}
use nuco_messenger.Call.Signals.{
  adopt_incoming, glare_eligible, handle_offer, offer_in_call, yield_to,
}
use nuco_messenger.Call.State.{ActiveCall, Config, Controller, send_signal, turn_credentials}
use nuco_messenger.Call.Teardown.{clear_timers, close_of, remember}
use nuco_messenger.Call.Types.{Contact, accept, connecting, incoming}
use nuco_messenger.Prelude.{
  Bool, Bool-cases, String, ap, arith, false, inl, inr, none, not, refl, some, true, ℕ, ◌∙◌, ◌∷◌,
  ◌≡◌, ◌⊎◌,
}
use nuco_messenger.Prelude.Keys.{has}

-- This side answers the other's call of that id: it left ringing, and fetches TURN credentials.
abbrev pub AnswersCall : String → Controller → Type 0
AnswersCall id d =
    (k : ActiveCall) × (d.call ≡ some k)
    × (k.call_id ≡ id)
    × (k.direction ≡ incoming)
    × (k.awaiting ≡ turn_credentials)
    × (d.status ≡ connecting)
    × (d.ring_timer ≡ none)

module _ (cfg : Config) (wins : String → String → Bool) (now : ℕ) (from : Contact) (id sdp : String)
    (sent_at : ℕ) (c : Controller) (k : ActiveCall) (e : c.call ≡ some k)
    (h : has id c.recently_ended ≡ false) (g : glare_eligible k from c.status ≡ true) where
  glare_won :
      wins k.call_id id ≡ true
      → let d = handle_offer cfg wins now from id sdp sent_at c in
        (d.call ≡ some k)
        × (d.status ≡ c.status)
        × (d.ring_timer ≡ c.ring_timer)
        × (d.trace ≡ c.trace)
        × (has id d.recently_ended ≡ true)
  unfolding handle_offer offer_in_call remember
  glare_won w = ground (arith, has-remember id c)

  yields :
      wins k.call_id id ≡ false
      → handle_offer cfg wins now from id sdp sent_at c ≡ yield_to cfg k from id sdp c
  unfolding handle_offer offer_in_call
  yields w = ground arith

yield_to-AnswersCall :
    (cfg : Config) (k : ActiveCall) (from : Contact) (id sdp : String) (c : Controller)
    → AnswersCall id (yield_to cfg k from id sdp c)
unfolding yield_to close_of clear_timers remember adopt_incoming
yield_to-AnswersCall cfg k from id sdp c = (_, refl, refl, refl, refl, refl, refl)

told-yield_to :
    (cfg : Config) (k : ActiveCall) (from : Contact) (id sdp : String) (c : Controller)
    → told (yield_to cfg k from id sdp c).trace ≡ send_signal from.handle (accept id) ∷ told c.trace
unfolding yield_to close_of clear_timers remember adopt_incoming told
told-yield_to cfg k from id sdp c = ground arith

-- When two sides call each other and each gets the other's offer while its own is starting or
-- ringing, they agree, whatever the two ids are, as long as `wins` holds in exactly one direction:
-- one side keeps its call just as it was and sends nothing, and the other has dropped its own, is
-- answering the call that was kept, and has told the peer only that it accepts.
pub glare_agrees :
    (cfg : Config) (wins : String → String → Bool) (now sent_a sent_b : ℕ) (a b : Contact)
    (sdp_a sdp_b : String) (c d : Controller) (j k : ActiveCall)
    → c.call ≡ some j
    → d.call ≡ some k
    → has k.call_id c.recently_ended ≡ false
    → has j.call_id d.recently_ended ≡ false
    → glare_eligible j b c.status ≡ true
    → glare_eligible k a d.status ≡ true
    → wins k.call_id j.call_id ≡ not (wins j.call_id k.call_id)
    → let c' = handle_offer cfg wins now b k.call_id sdp_b sent_b c in
      let d' = handle_offer cfg wins now a j.call_id sdp_a sent_a d in
      ((c'.call ≡ some j)
        × (c'.status ≡ c.status)
        × (c'.trace ≡ c.trace)
        × AnswersCall j.call_id d'
        × (told d'.trace ≡ send_signal a.handle (accept j.call_id) ∷ told d.trace))
      ⊎ ((d'.call ≡ some k)
          × (d'.status ≡ d.status)
          × (d'.trace ≡ d.trace)
          × AnswersCall k.call_id c'
          × (told c'.trace ≡ send_signal b.handle (accept k.call_id) ∷ told c.trace))
glare_agrees cfg wins now sent_a sent_b a b sdp_a sdp_b c d j k e f h i p q w =
    elim (Bool-cases (wins j.call_id k.call_id)) [
      | inl won ↦
          let kept = glare_won cfg wins now b k.call_id sdp_b sent_b c j e h p won in
          inl (
            kept.0,
            kept.1,
            kept.3,
            rw (yields cfg wins now a j.call_id sdp_a sent_a d k f i q (w ∙ ap not won))
                (yield_to-AnswersCall cfg k a j.call_id sdp_a d),
            rw (yields cfg wins now a j.call_id sdp_a sent_a d k f i q (w ∙ ap not won))
                (told-yield_to cfg k a j.call_id sdp_a d),
          )
      | inr lost ↦
          let kept = glare_won cfg wins now a j.call_id sdp_a sent_a d k f i q (w ∙ ap not lost) in
          inr (
            kept.0,
            kept.1,
            kept.3,
            rw (yields cfg wins now b k.call_id sdp_b sent_b c j e h p lost)
                (yield_to-AnswersCall cfg j b k.call_id sdp_b c),
            rw (yields cfg wins now b k.call_id sdp_b sent_b c j e h p lost)
                (told-yield_to cfg j b k.call_id sdp_b c),
          )
    ]
