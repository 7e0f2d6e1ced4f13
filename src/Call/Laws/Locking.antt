-- ===== src/Call/Laws/Locking.antt =====
-- How this side ends a call: `hangUp`, and `onAppLocking` before the app lock.
use nuco_messenger.Call.Ends.{
  LockTask, lock_plan, lock_plan_connecting, lock_teardown, on_app_locking, set_idle,
}
use nuco_messenger.Call.Incoming.{
  cancel, end_active, give_up_connecting, hang_up, hang_up_in, refuse,
}
use nuco_messenger.Call.Invariant.{IsValid, is_live}
use nuco_messenger.Call.Laws.Telling.{
  on_app_locking_live, told-hang_up_in, told-on_app_locking, told_of,
}
use nuco_messenger.Call.Laws.Told.{told}
use nuco_messenger.Call.Outgoing.{live_lem}
use nuco_messenger.Call.State.{ActiveCall, Config, Controller, Effect, send_signal, write_row}
use nuco_messenger.Call.Teardown.{close_of, completed_row, finish, row_for, send_end, teardown}
use nuco_messenger.Call.Types.{
  Direction, EndReason, Row, Status, active, canceled_marker, connecting, decline, declined_call,
  ending, hangup, hung_up, idle, incoming, incoming_ringing, missed_call, outgoing,
  outgoing_ringing, reconnecting, starting,
}
use nuco_messenger.Prelude.{
  Bool, List, ap, arith, false, if◌then◌else◌, none, refl, some, subst, sym, true, ℕ, ◌∙◌, ◌∷◌, ◌≡◌,
}

hang_up_live :
    (cfg : Config) (now : ℕ) (c : Controller) (k : ActiveCall)
    → c.call ≡ some k
    → hang_up cfg now c ≡ hang_up_in cfg now c.status k c
unfolding hang_up
hang_up_live cfg now c k e = live_lem (λ j. hang_up_in cfg now c.status j c) c c.call k e

-- The peer may have heard of the call.
abbrev pub peer_may_know : Status → Bool → Bool
peer_may_know starting offer_send_started = offer_send_started
peer_may_know _ offer_send_started = true

-- The peer is told of the end and one row is written for the call, or neither happens.
abbrev pub TellsOnce : Bool → ActiveCall → List Effect → List Effect → Type 0
TellsOnce true k before after =
    (why : EndReason) × (row : Row) × (row.call_id ≡ k.call_id)
    × (after ≡ write_row row ∷ send_signal k.contact.handle (hung_up k.call_id why) ∷ before)
TellsOnce false k before after = after ≡ before

canceled_plan :
    (k : ActiveCall) (es : List Effect) (b : Bool)
    → TellsOnce b k es (
        told_of
          (if b
            then record {
              call = k;
              end_signal = some hangup;
              row = some (row_for k missed_call (some canceled_marker) false);
            }
            else record { call = k; end_signal = none; row = none })
          es)
unfolding row_for
canceled_plan k es true = (hangup, row_for k missed_call (some canceled_marker) false, refl, refl)
canceled_plan k es false = refl

connecting_plan :
    (k : ActiveCall) (es : List Effect) (d : Direction)
    → TellsOnce true k es (told_of (lock_plan_connecting d k) es)
unfolding lock_plan_connecting row_for
connecting_plan k es outgoing =
    (hangup, row_for k missed_call (some canceled_marker) false, refl, refl)
connecting_plan k es incoming = (hangup, row_for k declined_call none false, refl, refl)

plan-TellsOnce :
    (now : ℕ) (s : Status) (k : ActiveCall) (es : List Effect)
    → is_live s ≡ true
    → TellsOnce (peer_may_know s k.offer_send_started) k es (told_of (lock_plan now s k) es)
unfolding lock_plan lock_plan_connecting row_for completed_row
plan-TellsOnce now starting k es l = canceled_plan k es k.offer_send_started
plan-TellsOnce now outgoing_ringing k es l = connecting_plan k es outgoing
plan-TellsOnce now incoming_ringing k es l =
    (decline, row_for k declined_call none false, refl, refl)
plan-TellsOnce now connecting k es l = connecting_plan k es k.direction
plan-TellsOnce now active k es l = (hangup, completed_row k now, refl, refl)
plan-TellsOnce now reconnecting k es l = (hangup, completed_row k now, refl, refl)
plan-TellsOnce now idle k es l = cc
plan-TellsOnce now ending k es l = cc

ends_call :
    (cfg : Config) (now : ℕ) (s : Status) (c : Controller) (k : ActiveCall)
    → c.call ≡ some k
    → is_live s ≡ true
    → ((hang_up_in cfg now s k c).call ≡ none) × ((hang_up_in cfg now s k c).status ≡ ending)
unfolding hang_up_in refuse cancel give_up_connecting end_active finish send_end close_of
ends_call cfg now s c k e l = ground arith

pub idle_after_lock :
    (task : LockTask) (c : Controller)
    → ((lock_teardown task c).call ≡ none) × ((lock_teardown task c).status ≡ idle)
unfolding lock_teardown set_idle teardown
idle_after_lock task c = (refl, refl)

live_of_valid :
    (c : Controller) (k : ActiveCall) → IsValid c → c.call ≡ some k → is_live c.status ≡ true
live_of_valid c k v e = ground arith

-- A live call that this side hangs up, in whatever status, is gone and its end is shown; an app lock
-- that nothing interrupts drops it and leaves the controller idle. Both tell the same: if the peer
-- may have heard of the call, one end signal for it to its peer and then one row for it, and
-- otherwise, with the offer not yet handed to the transport, nothing at all.
pub hang_up-on_app_locking :
    (cfg : Config) (now : ℕ) (c : Controller) (k : ActiveCall)
    → IsValid c
    → c.call ≡ some k
    → let d = hang_up cfg now c in
      let l = on_app_locking now c in
      (d.call ≡ none)
      × (d.status ≡ ending)
      × (l.call ≡ none)
      × (l.status ≡ idle)
      × (told l.trace ≡ told d.trace)
      × TellsOnce (peer_may_know c.status k.offer_send_started) k (told c.trace) (told d.trace)
hang_up-on_app_locking cfg now c k v e = (
  ap (λ (x : Controller). x.call) (hang_up_live cfg now c k e)
      ∙ (ends_call cfg now c.status c k e live).0,
  ap (λ (x : Controller). x.status) (hang_up_live cfg now c k e)
      ∙ (ends_call cfg now c.status c k e live).1,
  ap (λ (x : Controller). x.call) (on_app_locking_live now c k e) ∙ (idle_after_lock _ _).0,
  ap (λ (x : Controller). x.status) (on_app_locking_live now c k e) ∙ (idle_after_lock _ _).1,
  told-on_app_locking now c k e ∙ sym hung,
  subst (TellsOnce (peer_may_know c.status k.offer_send_started) k (told c.trace)) (sym hung)
      (plan-TellsOnce now c.status k (told c.trace) live),
)
  where
    live : is_live c.status ≡ true
    live = live_of_valid c k v e

    hung : told (hang_up cfg now c).trace ≡ told_of (lock_plan now c.status k) (told c.trace)
    hung =
        ap (λ (x : Controller). told x.trace) (hang_up_live cfg now c k e)
        ∙ told-hang_up_in cfg now c.status c k e
