-- ===== src/AppLock/Gate.antt =====
-- src/lock/lock-controller.ts: the gate on the app's state that locks after too long away.
use nuco_messenger.AppLock.State.{Lock}
use nuco_messenger.Prelude.{Bool, false, ltb, none, not, some, ℕ, ◌&&◌, ◌-◌}

-- `AppStateStatus`.
pub data AppState : Type 0 where
  background inactive foreground : AppState

-- Away for longer than the limit, and no call defers the lock.
unfoldable pub locks_now : ℕ → Bool → Lock → Bool
locks_now now deferred l = elim l.backgrounded_at [
  | none ↦ false
  | some since ↦ ltb l.auto_lock_ms (now - since) && not deferred
]

-- `backgroundedAt` is set when the app leaves the foreground, unless it is set already.
unfoldable pub note_away : ℕ → Lock → Lock
note_away now l = elim l.backgrounded_at [
  | none ↦ record l { backgrounded_at = some now }
  | some since ↦ l
]

-- `onAppStateChange`; the Bool says whether it calls `lock`.
unfoldable pub on_app_state : ℕ → Bool → AppState → Lock → Bool × Lock
unfolding locks_now note_away
on_app_state now deferred foreground l =
    (locks_now now deferred l, record l { backgrounded_at = none })
on_app_state now deferred _ l = (false, note_away now l)
