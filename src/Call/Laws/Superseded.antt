-- ===== src/Call/Laws/Superseded.antt =====
-- src/calls/controller.ts: `onAppLocking` when the call that it captured is replaced during its awaits.
use nuco_messenger.Call.Ends.{LockTask, captured, lock_teardown, set_idle}
use nuco_messenger.Call.Laws.Locking.{idle_after_lock}
use nuco_messenger.Call.Laws.Telling.{told-teardown}
use nuco_messenger.Call.Laws.Told.{told}
use nuco_messenger.Call.Outgoing.{current}
use nuco_messenger.Call.State.{
  ActiveCall, Controller, Effect, close_engine, get_snapshot, on_state, stop_call_audio,
  stop_incoming_ring,
}
use nuco_messenger.Call.Teardown.{clear_timers, close_of, remember, teardown}
use nuco_messenger.Call.Types.{idle}
use nuco_messenger.Prelude.{List, Option, ap, arith, if◌then◌else◌, none, some, ℕ, ◌∷◌, ◌≡◌, ◌≢◌}

stale_current :
    (c : Controller) (k : ActiveCall) (ref : ℕ)
    → c.call ≡ some k
    → k.ref ≢ ref
    → current ref c.call ≡ none
stale_current c k ref e n = ground arith

abbrev pub close_trace : ActiveCall → List Effect → List Effect
close_trace k es = if k.engine then close_engine k.ref ∷ es else es

teardown-trace :
    (k : ActiveCall) (c : Controller)
    → let d = set_idle (teardown k c) in
      d.trace
      ≡ on_state (get_snapshot d) ∷ close_trace k (stop_call_audio ∷ stop_incoming_ring ∷ c.trace)
unfolding set_idle teardown close_of clear_timers remember get_snapshot
teardown-trace k c = ground arith

lock_teardown_stale :
    (task : LockTask) (c : Controller)
    → current task.call.ref c.call ≡ none
    → lock_teardown task c ≡ set_idle (teardown task.call c)
unfolding lock_teardown captured
lock_teardown_stale task c h =
    ap (λ (o : Option ActiveCall). set_idle (teardown (captured task.call o) c)) h

-- The part of `onAppLocking` after its awaits has no generation check. If by then another call is
-- live than the one that it captured, that call is dropped with no signal to its peer and no row,
-- and its engine is not closed: the engine that is closed is that of the captured call.
pub lock_drops_newer_call :
    (task : LockTask) (c : Controller) (k : ActiveCall)
    → c.call ≡ some k
    → k.ref ≢ task.call.ref
    → let d = lock_teardown task c in
      (d.call ≡ none)
      × (d.status ≡ idle)
      × (told d.trace ≡ told c.trace)
      × (d.trace
          ≡ on_state (get_snapshot d)
            ∷ (close_trace task.call (stop_call_audio ∷ stop_incoming_ring ∷ c.trace)))
lock_drops_newer_call task c k e n = (
  (idle_after_lock task c).0,
  (idle_after_lock task c).1,
  rw (lock_teardown_stale task c (stale_current c k task.call.ref e n)) (told-teardown task.call c),
  rw (lock_teardown_stale task c (stale_current c k task.call.ref e n))
      (teardown-trace task.call c),
)
