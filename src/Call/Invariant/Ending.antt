-- ===== src/Call/Invariant/Ending.antt =====
-- The invariant of Call.Invariant, `finish` and `onAppLocking` of src/calls/controller.ts.
use nuco_messenger.Call.Ends.{LockTask, captured, lock_row, lock_signal, lock_teardown, set_idle}
use nuco_messenger.Call.Invariant.{IsBounded, IsCoherent, IsTimed, IsValid}
use nuco_messenger.Call.Invariant.Recent.{remember-IsBounded}
use nuco_messenger.Call.Outgoing.{current}
use nuco_messenger.Call.State.{ActiveCall, Config, Controller}
use nuco_messenger.Call.Teardown.{finish, linger_fires, send_end, teardown}
use nuco_messenger.Call.Types.{EndReason, Row, UiEndReason}
use nuco_messenger.Prelude.{Option, Option-cases, [], arith, inl, inr, none, some, ◌∙◌, ◌≡◌}

finish-IsCoherent :
    (cfg : Config) (r : UiEndReason) (row : Option Row) (c : Controller)
    → IsCoherent c
    → IsCoherent (finish cfg r row c)
unfolding finish
finish-IsCoherent cfg r row c v = ground arith

finish-IsTimed :
    (cfg : Config) (r : UiEndReason) (row : Option Row) (c : Controller)
    → IsTimed c
    → IsTimed (finish cfg r row c)
unfolding finish
finish-IsTimed cfg r row c v = ground arith

finish-IsBounded :
    (cfg : Config) (r : UiEndReason) (row : Option Row) (c : Controller)
    → IsBounded c
    → IsBounded (finish cfg r row c)
unfolding finish
finish-IsBounded cfg r none c v = elim (Option-cases c.call) [
  | inl e ↦ ground arith
  | inr (k, e) ↦ ground (arith, remember-IsBounded k.call_id v)
]
finish-IsBounded cfg r (some row) c v = elim (Option-cases c.call) [
  | inl e ↦ ground arith
  | inr (k, e) ↦ ground (arith, remember-IsBounded k.call_id v)
]

pub finish-IsValid :
    (cfg : Config) (r : UiEndReason) (row : Option Row) (c : Controller)
    → IsValid c
    → IsValid (finish cfg r row c)
finish-IsValid cfg r row c v = record {
  core = finish-IsCoherent cfg r row c v.core;
  timers = finish-IsTimed cfg r row c v.timers;
  recent = finish-IsBounded cfg r row c v.recent;
}

pub send_end-IsValid : (r : EndReason) (c : Controller) → IsValid c → IsValid (send_end r c)
unfolding send_end
send_end-IsValid r c v = ground arith

pub linger_fires-IsValid : (c : Controller) → IsValid c → IsValid (linger_fires c)
unfolding linger_fires
linger_fires-IsValid c v = ground arith

pub lock_signal-IsValid :
    (task : LockTask) (c : Controller) → IsValid c → IsValid (lock_signal task c)
unfolding lock_signal
lock_signal-IsValid task c v = ground arith

pub lock_row-IsValid : (task : LockTask) (c : Controller) → IsValid c → IsValid (lock_row task c)
unfolding lock_row
lock_row-IsValid task c v = ground arith

lock_teardown_of : (k : ActiveCall) (c : Controller) → IsValid c → IsValid (set_idle (teardown k c))
unfolding teardown set_idle
lock_teardown_of k c v = ground (arith, remember-IsBounded k.call_id v.recent)

pub lock_teardown-IsValid :
    (task : LockTask) (c : Controller) → IsValid c → IsValid (lock_teardown task c)
unfolding lock_teardown
lock_teardown-IsValid task c v =
    lock_teardown_of (captured task.call (current task.call.ref c.call)) c v

-- `finish` needs little of a live call's controller.
pub finish_live-IsValid :
    (cfg : Config) (r : UiEndReason) (row : Option Row) (k : ActiveCall) (c : Controller)
    → c.call ≡ some k
    → c.linger_timer ≡ none
    → c.orphans ≡ []
    → IsBounded c
    → IsValid (finish cfg r row c)
unfolding finish
finish_live-IsValid cfg r none k c e l o b = ground (arith, remember-IsBounded k.call_id b)
finish_live-IsValid cfg r (some row) k c e l o b = ground (arith, remember-IsBounded k.call_id b)

send_end_kept :
    (why : EndReason) (c : Controller)
    → IsBounded c
    → ((send_end why c).call ≡ c.call)
      × ((send_end why c).linger_timer ≡ c.linger_timer)
      × ((send_end why c).orphans ≡ c.orphans)
      × IsBounded (send_end why c)
unfolding send_end
send_end_kept why c b = ground arith

-- So it is after the peer has been told.
pub finish_told-IsValid :
    (cfg : Config) (r : UiEndReason) (row : Option Row) (why : EndReason) (k : ActiveCall)
    (c : Controller)
    → c.call ≡ some k
    → c.linger_timer ≡ none
    → c.orphans ≡ []
    → IsBounded c
    → IsValid (finish cfg r row (send_end why c))
finish_told-IsValid cfg r row why k c e l o b =
    finish_live-IsValid cfg r row k (send_end why c) (kept.0 ∙ e) (kept.1 ∙ l) (kept.2 ∙ o) kept.3
  where
    kept :
        ((send_end why c).call ≡ c.call)
        × ((send_end why c).linger_timer ≡ c.linger_timer)
        × ((send_end why c).orphans ≡ c.orphans)
        × IsBounded (send_end why c)
    kept = send_end_kept why c b
