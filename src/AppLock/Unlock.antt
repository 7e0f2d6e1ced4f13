-- ===== src/AppLock/Unlock.antt =====
-- src/lock/lock-controller.ts: unlocking with a PIN or biometrics, and locking.
use nuco_messenger.AppLock.State.{
  Lock, hydrate, locked, lockout_ms, lockout_remaining, max_attempts, no_failures, persist,
  unlocked, unlocking,
}
use nuco_messenger.Call.Incoming.{answer}
use nuco_messenger.Prelude.{Bool, String, false, if◌then◌else◌, leb, ltb, none, some, true, ℕ, ◌+◌}

-- What `openEncryptedDb` of a closed connection comes to: `open` throws, or `migrate` throws with the
-- connection already assigned, or both succeed. An open connection is returned as it is.
pub data OpenResult : Type 0 where
  open_fails migration_fails opens : OpenResult

abbrev pub open_db : OpenResult → Lock → Bool × Lock
open_db result l = if l.connected then (true, l) else elim result [
  | open_fails ↦ (false, l)
  | migration_fails ↦ (false, record l { connected = true })
  | opens ↦ (true, record l { connected = true })
]

-- `openWithKey`, after `openEncryptedDb` has returned.
unfoldable pub opened_with : String → Lock → Lock
unfolding persist
opened_with key l = record (persist (record l { db_key = some key; counters = no_failures })) {
  lock_status = unlocked;
}

-- What a key store answers. `getDatabaseKeyWithPin` throws on a wrong PIN, and
-- `getDatabaseKeyWithBiometrics` gives null for a missing key.
pub data KeyResult : Type 0 where
  throws absent : KeyResult
  released : String → KeyResult

-- A failed PIN.
unfoldable pub count_failure : ℕ → Lock → Lock
unfolding persist
count_failure now l =
    let failed = l.counters.failed_attempts + 1 in
    let counted = record l {
      counters =
          if leb max_attempts failed
          then record { failed_attempts = 0; lockout_until = now + lockout_ms }
          else record l.counters { failed_attempts = failed };
    } in
    record (persist counted) { lock_status = locked }

pin_opened : ℕ → String → Bool × Lock → Bool × Lock
unfolding opened_with count_failure
pin_opened now key (true, l) = (true, opened_with key l)
pin_opened now key (false, l) = (false, count_failure now l)

-- `unlockWithPin` once it has passed the check of the lockout.
unfoldable pub try_pin : ℕ → KeyResult → OpenResult → Lock → Bool × Lock
unfolding pin_opened count_failure
try_pin now (released key) result l =
    pin_opened now key (open_db result (record l { lock_status = unlocking }))
try_pin now _ result l = (false, count_failure now (record l { lock_status = unlocking }))

-- The shape that both ways to unlock have: hydrate, and refuse during a lockout.
abbrev unless_locked_out : ℕ → (Lock → Bool × Lock) → Lock → Bool × Lock
unless_locked_out now try l = if ltb 0 (lockout_remaining now l) then (false, l) else try l

-- `unlockWithPin`.
unfoldable pub unlock_with_pin : ℕ → KeyResult → OpenResult → Lock → Bool × Lock
unfolding hydrate lockout_remaining try_pin
unlock_with_pin now answer result l = unless_locked_out now (try_pin now answer result) (hydrate l)

biometrics_opened : String → Bool × Lock → Bool × Lock
unfolding opened_with
biometrics_opened key (true, l) = (true, opened_with key l)
biometrics_opened key (false, l) = (false, record l { lock_status = locked })

unfoldable pub try_biometrics : KeyResult → OpenResult → Lock → Bool × Lock
unfolding biometrics_opened
try_biometrics (released key) result l =
    biometrics_opened key (open_db result (record l { lock_status = unlocking }))
try_biometrics _ result l = (false, record l { lock_status = locked })

-- `unlockWithBiometrics`.
unfoldable pub unlock_with_biometrics : ℕ → KeyResult → OpenResult → Lock → Bool × Lock
unfolding hydrate lockout_remaining try_biometrics
unlock_with_biometrics now answer result l =
    unless_locked_out now (try_biometrics answer result) (hydrate l)

-- `markUnlockedWithKey`.
unfoldable pub mark_unlocked : String → Lock → Lock
mark_unlocked key l = record l { db_key = some key; lock_status = unlocked }

-- `lock`: the part after the hook, up to the await of `closeEncryptedDb`, and the rest.
unfoldable pub drop_key : Lock → Lock
drop_key l = record l { db_key = none; connected = false }

unfoldable pub show_locked : Lock → Lock
show_locked l = record l { backgrounded_at = none; lock_status = locked }

-- `lock` when nothing happens during its awaits. The hook sees the lock with its key, may change
-- whatever it owns, and cannot refuse: what it throws is dropped.
unfoldable pub lock {ℓ} : {S : Type ℓ} → (Lock → S → S) → Lock → S → Lock × S
unfolding drop_key show_locked
lock hook l s = (show_locked (drop_key l), hook l s)
