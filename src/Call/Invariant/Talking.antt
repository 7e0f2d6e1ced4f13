-- ===== src/Call/Invariant/Talking.antt =====
-- The invariant of Call.Invariant and what the users and the media engine do to a call.
use nuco_messenger.Call.Incoming.{
  cancel, decline_call, end_active, give_up_connecting, hang_up, hang_up_in, is_incoming_ringing,
  lose, refuse, set_muted, set_speaker,
}
use nuco_messenger.Call.Invariant.{IsValid}
use nuco_messenger.Call.Invariant.Answering.{lose-IsValid, told-IsValid}
use nuco_messenger.Call.Invariant.Ending.{finish-IsValid}
use nuco_messenger.Call.Media.{
  drop_active, ice_body, media_failed, media_lost, media_up, on_ice_state,
}
use nuco_messenger.Call.Outgoing.{live_rule, with_current_rule}
use nuco_messenger.Call.Signals.{answer_rejected}
use nuco_messenger.Call.State.{ActiveCall, Config, Controller}
use nuco_messenger.Call.Teardown.{completed_row, row_for}
use nuco_messenger.Call.Types.{
  Direction, IceState, Status, active, broken, canceled, canceled_marker, completed, connected,
  connecting, connection_lost, decline, declined, declined_call, disconnected, ended, error,
  error_marker, hangup, incoming, incoming_ringing, missed_call, outgoing, outgoing_ringing,
  reconnecting, starting,
}
use nuco_messenger.Prelude.{Bool, arith, false, if_rule, if◌then◌else◌, none, refl, some, ℕ, ◌≡◌}

module _ (cfg : Config) (c : Controller) (v : IsValid c) where
  refuse-IsValid : (k : ActiveCall) → IsValid (refuse cfg k c)
  unfolding refuse
  refuse-IsValid k =
      told-IsValid cfg declined (some (row_for k declined_call none false)) decline c v

  cancel-IsValid : (k : ActiveCall) → IsValid (cancel cfg k c)
  unfolding cancel
  cancel-IsValid k =
      told-IsValid cfg canceled (some (row_for k missed_call (some canceled_marker) false)) hangup c
        v

  give_up_connecting-IsValid :
      (d : Direction) (k : ActiveCall) → IsValid (give_up_connecting cfg d k c)
  unfolding give_up_connecting
  give_up_connecting-IsValid outgoing k = cancel-IsValid k
  give_up_connecting-IsValid incoming k =
      told-IsValid cfg canceled (some (row_for k declined_call none false)) hangup c v

  end_active-IsValid : (now : ℕ) (k : ActiveCall) → IsValid (end_active cfg now k c)
  unfolding end_active
  end_active-IsValid now k = told-IsValid cfg ended (some (completed_row k now)) hangup c v

  hang_up_in-IsValid : (now : ℕ) (s : Status) (k : ActiveCall) → IsValid (hang_up_in cfg now s k c)
  unfolding hang_up_in
  hang_up_in-IsValid now starting k =
      if_rule IsValid k.offer_send_started (cancel-IsValid k) (finish-IsValid cfg canceled none c v)
  hang_up_in-IsValid now outgoing_ringing k = cancel-IsValid k
  hang_up_in-IsValid now incoming_ringing k = refuse-IsValid k
  hang_up_in-IsValid now connecting k = give_up_connecting-IsValid k.direction k
  hang_up_in-IsValid now active k = end_active-IsValid now k
  hang_up_in-IsValid now reconnecting k = end_active-IsValid now k
  hang_up_in-IsValid now _ k = v

  pub hang_up-IsValid : (now : ℕ) → IsValid (hang_up cfg now c)
  unfolding hang_up
  hang_up-IsValid now =
      live_rule IsValid (λ k. hang_up_in cfg now c.status k c) c.call v
        λ k e. hang_up_in-IsValid now c.status k

  pub decline_call-IsValid : IsValid (decline_call cfg c)
  unfolding decline_call
  decline_call-IsValid =
      live_rule IsValid (λ k. if is_incoming_ringing c.status then refuse cfg k c else c) c.call v
        λ k e. if_rule IsValid (is_incoming_ringing c.status) (refuse-IsValid k) v

  pub set_muted-IsValid : (on : Bool) → IsValid (set_muted on c)
  unfolding set_muted
  set_muted-IsValid on = ground arith

  pub set_speaker-IsValid : (on : Bool) → IsValid (set_speaker on c)
  unfolding set_speaker
  set_speaker-IsValid on = ground arith

  drop_active-IsValid : (now : ℕ) (k : ActiveCall) → IsValid (drop_active cfg now k c)
  unfolding drop_active
  drop_active-IsValid now k =
      told-IsValid cfg connection_lost (some (completed_row k now)) error c v

  module _ (k : ActiveCall) (e : c.call ≡ some k) where
    media_up-IsValid : (now : ℕ) (s : Status) → c.status ≡ s → IsValid (media_up now s k c)
    unfolding media_up
    media_up-IsValid now connecting h = ground arith
    media_up-IsValid now reconnecting h = ground arith
    media_up-IsValid now _ h = v

    media_lost-IsValid : (s : Status) → c.status ≡ s → IsValid (media_lost cfg s k c)
    unfolding media_lost
    media_lost-IsValid active h = ground arith
    media_lost-IsValid _ h = v

    media_failed-IsValid : (now : ℕ) (s : Status) → IsValid (media_failed cfg now s k c)
    unfolding media_failed
    media_failed-IsValid now connecting =
        told-IsValid cfg connection_lost (some (row_for k missed_call (some error_marker) false))
          error c v
    media_failed-IsValid now active = drop_active-IsValid now k
    media_failed-IsValid now reconnecting = drop_active-IsValid now k
    media_failed-IsValid now _ = v

    ice_body-IsValid : (now : ℕ) (s : IceState) → IsValid (ice_body cfg now s k c)
    unfolding ice_body
    ice_body-IsValid now connected = media_up-IsValid now c.status refl
    ice_body-IsValid now completed = media_up-IsValid now c.status refl
    ice_body-IsValid now disconnected = media_lost-IsValid c.status refl
    ice_body-IsValid now broken = media_failed-IsValid now c.status
    ice_body-IsValid now _ = v

  pub on_ice_state-IsValid : (now ref : ℕ) (s : IceState) → IsValid (on_ice_state cfg now ref s c)
  unfolding on_ice_state
  on_ice_state-IsValid now ref s =
      with_current_rule IsValid ref (ice_body cfg now s) c v λ k e r. ice_body-IsValid k e now s

  pub answer_rejected-IsValid : (ref : ℕ) → IsValid (answer_rejected cfg ref c)
  unfolding answer_rejected
  answer_rejected-IsValid ref =
      with_current_rule IsValid ref (lose cfg connection_lost) c v
        λ k e r. lose-IsValid cfg connection_lost k c v
