-- ===== src/Call/Media.antt =====
-- src/calls/controller.ts: `onIceState` and the grace timer of a lost connection.
use nuco_messenger.Call.Outgoing.{put_call, with_current}
use nuco_messenger.Call.State.{
  ActiveCall, Config, Controller, arm_disconnect, clear_connect, clear_disconnect, disconnect_grace,
  engine_muted, log, set_status, start_call_audio,
}
use nuco_messenger.Call.Teardown.{completed_row, finish, row_for, send_end}
use nuco_messenger.Call.Types.{
  IceState, Status, active, broken, completed, connected, connecting, connection_lost, disconnected,
  error, error_marker, missed_call, reconnecting,
}
use nuco_messenger.Prelude.{Bool, false, if◌then◌else◌, none, some, true, ℕ, ◌&&◌}

abbrev pub is_reconnecting : Status → Bool
is_reconnecting reconnecting = true
is_reconnecting _ = false

-- The end of a call whose media is gone after it was active.
unfoldable pub drop_active : Config → ℕ → ActiveCall → Controller → Controller
drop_active cfg now k c = finish cfg connection_lost (some (completed_row k now)) (send_end error c)

-- The callback of the disconnect timer.
unfoldable pub disconnect_fires : Config → ℕ → ℕ → Controller → Controller
unfolding drop_active
disconnect_fires cfg now ref c =
    with_current ref (λ k d. if is_reconnecting d.status then drop_active cfg now k d else d)
      (record c { disconnect_timer = none })

unfoldable pub mute_again : ActiveCall → Controller → Controller
mute_again k c = if k.muted && k.engine then log (engine_muted k.ref true) c else c

unfoldable pub media_up : ℕ → Status → ActiveCall → Controller → Controller
unfolding set_status mute_again
media_up now connecting k c = set_status active (
    mute_again k
      (log start_call_audio (put_call (record k { active_since = some now }) (clear_connect c))))
media_up now reconnecting k c = set_status active (clear_disconnect c)
media_up now _ k c = c

unfoldable pub media_lost : Config → Status → ActiveCall → Controller → Controller
unfolding set_status arm_disconnect
media_lost cfg active k c =
    arm_disconnect
      (record { kind = disconnect_grace; ref = k.ref; delay_ms = cfg.disconnect_grace_ms })
      (set_status reconnecting c)
media_lost cfg _ k c = c

unfoldable pub media_failed : Config → ℕ → Status → ActiveCall → Controller → Controller
unfolding drop_active
media_failed cfg now connecting k c =
    finish cfg connection_lost (some (row_for k missed_call (some error_marker) false))
      (send_end error c)
media_failed cfg now active k c = drop_active cfg now k c
media_failed cfg now reconnecting k c = drop_active cfg now k c
media_failed cfg now _ k c = c

unfoldable pub ice_body : Config → ℕ → IceState → ActiveCall → Controller → Controller
unfolding media_up media_lost media_failed
ice_body cfg now connected k c = media_up now c.status k c
ice_body cfg now completed k c = media_up now c.status k c
ice_body cfg now disconnected k c = media_lost cfg c.status k c
ice_body cfg now broken k c = media_failed cfg now c.status k c
ice_body cfg now _ k c = c

-- `onIceState(call, s)`.
unfoldable pub on_ice_state : Config → ℕ → ℕ → IceState → Controller → Controller
unfolding ice_body
on_ice_state cfg now ref s = with_current ref (ice_body cfg now s)
