-- ===== src/Call/Laws/Offers.antt =====
-- `handleOffer` of src/calls/controller.ts, in each state that an offer can meet.
use nuco_messenger.Call.Ends.{end_of_other, handle_call_signal, handle_end}
use nuco_messenger.Call.Invariant.Recent.{has-remember}
use nuco_messenger.Call.Signals.{
  adopt_incoming, decline_busy, glare_eligible, handle_accepted, handle_answer, handle_offer,
  offer_in_call, offer_when_free,
}
use nuco_messenger.Call.State.{
  ActiveCall, Config, Controller, get_snapshot, nothing, on_state, send_signal, start_incoming_ring,
  write_row,
}
use nuco_messenger.Call.Teardown.{finish, remember}
use nuco_messenger.Call.Types.{
  CallSignal, Contact, Row, UiEndReason, accept, answered, busy_elsewhere, hung_up, incoming,
  incoming_ringing, missed_call, offer,
}
use nuco_messenger.Prelude.{
  Bool, Option, String, arith, false, if◌then◌else◌, is_some, none, not, refl, some, str_eq, true,
  ℕ, ◌+◌, ◌<◌, ◌||◌, ◌∷◌, ◌≡◌, ◌≤◌,
}
use nuco_messenger.Prelude.Keys.{has}

abbrev pub KeepsCall : Controller → Controller → Type 0
KeepsCall c d =
    (d.call ≡ c.call)
    × (d.status ≡ c.status)
    × (d.ring_timer ≡ c.ring_timer)
    × (d.connect_timer ≡ c.connect_timer)
    × (d.disconnect_timer ≡ c.disconnect_timer)
    × (d.linger_timer ≡ c.linger_timer)

-- An offer that comes during a call never disturbs the call, its status or its timers, unless it is in a
-- glare with the call and wins it. Outside a glare and for a new id the sender is told that this side is
-- busy; one unread, incoming missed call is recorded for it when the sender is not the peer of the call,
-- and otherwise nothing is. In every case the id is remembered; and where it was remembered before, or
-- this side wins the glare, nothing is told or recorded.
pub offer_when_busy :
    (cfg : Config) (wins : String → String → Bool) (now : ℕ) (from : Contact) (id sdp : String)
    (sent_at : ℕ) (c : Controller) (k : ActiveCall)
    → c.call ≡ some k
    → (has id c.recently_ended || not (glare_eligible k from c.status) || wins k.call_id id) ≡ true
    → let d = handle_offer cfg wins now from id sdp sent_at c in
      KeepsCall c d
      × (has id d.recently_ended ≡ true)
      × (d.trace ≡ (
          if has id c.recently_ended || glare_eligible k from c.status
          then c.trace
          else (if str_eq k.contact.handle from.handle
              then send_signal from.handle (hung_up id busy_elsewhere) ∷ c.trace
              else write_row (record {
                call_id = id;
                contact_id = from.id;
                kind = missed_call;
                direction = incoming;
                body = none;
                unread = true;
              })
                ∷ send_signal from.handle (hung_up id busy_elsewhere)
                ∷ c.trace)))
unfolding handle_offer offer_in_call decline_busy remember
offer_when_busy cfg wins now from id sdp sent_at c k e h = ground (arith, has-remember id c)

abbrev pub id_of : CallSignal → String
id_of (offer id sdp) = id
id_of (accept id) = id
id_of (answered id sdp) = id
id_of (hung_up id why) = id

deaf :
    (cfg : Config) (wins : String → String → Bool) (now : ℕ) (from : Contact) (signal : CallSignal)
    (sent_at : ℕ) (c : Controller)
    → c.call ≡ none
    → has (id_of signal) c.recently_ended ≡ true
    → handle_call_signal cfg wins now from signal sent_at c ≡ c
unfolding handle_call_signal handle_offer handle_accepted handle_answer handle_end end_of_other
deaf cfg wins now from (offer id sdp) sent_at c e h = rw h
deaf cfg wins now from (accept id) sent_at c e h = ground arith
deaf cfg wins now from (answered id sdp) sent_at c e h = ground arith
deaf cfg wins now from (hung_up id why) sent_at c e h = ground arith

finish-remembers :
    (cfg : Config) (r : UiEndReason) (row : Option Row) (c : Controller) (k : ActiveCall)
    → c.call ≡ some k
    → ((finish cfg r row c).call ≡ none)
      × (has k.call_id (finish cfg r row c).recently_ended ≡ true)
unfolding finish remember
finish-remembers cfg r none c k e = ground (arith, has-remember k.call_id c)
finish-remembers cfg r (some row) c k e = ground (arith, has-remember k.call_id c)

-- Once a call has been finished, whatever the reason, every signal that still comes for it, from
-- anyone and however often (an offer, an accept, an answer or an end), changes nothing and calls
-- nothing: it neither rings again nor writes a second row.
pub finished_call_is_deaf :
    (cfg : Config) (r : UiEndReason) (row : Option Row) (c : Controller) (k : ActiveCall)
    → c.call ≡ some k
    → (wins : String → String → Bool) (now : ℕ) (from : Contact) (signal : CallSignal) (sent_at : ℕ)
    → id_of signal ≡ k.call_id
    → handle_call_signal cfg wins now from signal sent_at (finish cfg r row c) ≡ finish cfg r row c
finished_call_is_deaf cfg r row c k e wins now from signal sent_at h =
    let (free, known) = finish-remembers cfg r row c k e in
    deaf cfg wins now from signal sent_at (finish cfg r row c) free (rw h known)

-- The call object that a ring begins with.
abbrev rung : Contact → String → String → ℕ → ActiveCall
rung from id sdp ref = record {
  ref = ref;
  call_id = id;
  contact = from;
  direction = incoming;
  engine = false;
  pending_offer_sdp = some sdp;
  offer_send_started = false;
  answer_applied = false;
  active_since = none;
  muted = false;
  speaker = false;
  awaiting = nothing;
}

rings :
    (cfg : Config) (wins : String → String → Bool) (now : ℕ) (from : Contact) (id sdp : String)
    (sent_at : ℕ) (c : Controller)
    → c.call ≡ none
    → has id c.recently_ended ≡ false
    → now < sent_at + cfg.stale_offer_ms
    → handle_offer cfg wins now from id sdp sent_at c ≡ adopt_incoming cfg from id sdp false c
unfolding handle_offer offer_when_free
rings cfg wins now from id sdp sent_at c e h young = ground arith

ring_trace :
    (cfg : Config) (from : Contact) (id sdp : String) (c d : Controller)
    → d ≡ adopt_incoming cfg from id sdp false c
    → d.trace ≡ start_incoming_ring ∷ on_state (get_snapshot d) ∷ c.trace
unfolding adopt_incoming get_snapshot
ring_trace cfg from id sdp c d e = rw e

-- Without a call, and for an id that is not remembered, the sender's clock decides: an offer as old
-- as the stale window or older leaves the call, the status and the timers as they are, is answered
-- by nothing, is recorded as one unread, incoming missed call and remembered; a younger one rings, with its
-- ring timer, the offered SDP kept for `answer`, no signal sent and no row written.
pub offer_when_free_lem :
    (cfg : Config) (wins : String → String → Bool) (now : ℕ) (from : Contact) (id sdp : String)
    (sent_at : ℕ) (c : Controller)
    → c.call ≡ none
    → has id c.recently_ended ≡ false
    → let d = handle_offer cfg wins now from id sdp sent_at c in
      (sent_at + cfg.stale_offer_ms ≤ now
        → KeepsCall c d
          × (d.trace
              ≡ write_row (record {
                call_id = id;
                contact_id = from.id;
                kind = missed_call;
                direction = incoming;
                body = none;
                unread = true;
              })
                ∷ c.trace)
          × (has id d.recently_ended ≡ true))
      × (now < sent_at + cfg.stale_offer_ms
          → (k : ActiveCall) × (d.call ≡ some k)
            × (k.call_id ≡ id)
            × (k.contact ≡ from)
            × (k.direction ≡ incoming)
            × (k.pending_offer_sdp ≡ some sdp)
            × (d.status ≡ incoming_ringing)
            × (is_some d.ring_timer ≡ true)
            × (d.trace ≡ start_incoming_ring ∷ on_state (get_snapshot d) ∷ c.trace))
unfolding handle_offer offer_when_free adopt_incoming remember
offer_when_free_lem cfg wins now from id sdp sent_at c e h = (
  λ old. ground (arith, has-remember id c),
  λ young. (
    rung from id sdp c.next_ref,
    ground arith,
    refl,
    refl,
    refl,
    refl,
    ground arith,
    ground arith,
    ring_trace cfg from id sdp c _ (rings cfg wins now from id sdp sent_at c e h young),
  ),
)
