-- ===== src/AppLock/Opening.antt =====
-- src/lock/lock-controller.ts: when an attempt to unlock opens the app.
use nuco_messenger.AppLock.State.{
  Lock, hydrate, is_unlocked, locked, lockout_remaining, max_attempts, no_failures, persist,
}
use nuco_messenger.AppLock.Unlock.{
  KeyResult, OpenResult, count_failure, migration_fails, opened_with, released, try_biometrics,
  try_pin, unlock_with_biometrics, unlock_with_pin,
}
use nuco_messenger.Call.Incoming.{answer}
use nuco_messenger.Prelude.{Bool, Option, String, arith, false, some, true, ℕ, ◌+◌, ◌<◌, ◌≡◌, ◌≤◌}

abbrev pub IsRelease : KeyResult → Option String → Type 0
IsRelease (released key) held = held ≡ some key
IsRelease _ held = ⊥

-- An attempt on a locked app that gave `ok`.
abbrev pub OpensOnRelease : KeyResult → Lock → Bool × Lock → Type 0
OpensOnRelease answer l (ok, d) =
    (is_unlocked d ≡ ok)
    × (ok ≡ true → IsRelease answer d.db_key × (d.connected ≡ true) × (d.stored ≡ some no_failures))
    × (ok ≡ false → (d.lock_status ≡ locked) × (d.db_key ≡ l.db_key))

pin-OpensOnRelease :
    (now : ℕ) (answer : KeyResult) (result : OpenResult) (l : Lock)
    → l.lock_status ≡ locked
    → OpensOnRelease answer l (unlock_with_pin now answer result l)
unfolding unlock_with_pin try_pin hydrate count_failure opened_with persist is_unlocked
pin-OpensOnRelease now answer result l e = ground arith

biometrics-OpensOnRelease :
    (now : ℕ) (answer : KeyResult) (result : OpenResult) (l : Lock)
    → l.lock_status ≡ locked
    → OpensOnRelease answer l (unlock_with_biometrics now answer result l)
unfolding unlock_with_biometrics try_biometrics hydrate opened_with persist is_unlocked
biometrics-OpensOnRelease now answer result l e = ground arith

-- On a locked app, an attempt with a PIN or with biometrics, whatever the key store and the database
-- answer, reports success exactly if the app is unlocked after it. Success takes the key that the
-- key store released, with the database open and the record of failures cleared in secure storage;
-- a failed attempt leaves the app locked, with the key that it held before.
pub unlock_opens :
    (now : ℕ) (answer : KeyResult) (result : OpenResult) (l : Lock)
    → l.lock_status ≡ locked
    → OpensOnRelease answer l (unlock_with_pin now answer result l)
      × OpensOnRelease answer l (unlock_with_biometrics now answer result l)
unlock_opens now answer result l e =
    (pin-OpensOnRelease now answer result l e, biometrics-OpensOnRelease now answer result l e)

-- With the right PIN, no connection open, no lockout and fewer than four failures on record, a
-- migration that throws is counted as one more wrong PIN, and leaves the database connection open in
-- an app that is locked. The next attempt with that PIN takes that connection and succeeds, although
-- `migrate` would throw again: it is not asked.
pub failed_migration_lem :
    (now later : ℕ) (key : String) (l : Lock)
    → l.hydrated ≡ true
    → l.connected ≡ false
    → l.counters.lockout_until ≤ now
    → l.counters.failed_attempts + 1 < max_attempts
    → now ≤ later
    → let (ok, d) = unlock_with_pin now (released key) migration_fails l in
      (ok ≡ false)
      × (d.lock_status ≡ locked)
      × (d.connected ≡ true)
      × (d.counters.failed_attempts ≡ l.counters.failed_attempts + 1)
      × ((unlock_with_pin later (released key) migration_fails d).0 ≡ true)
unfolding unlock_with_pin try_pin hydrate count_failure opened_with persist lockout_remaining
failed_migration_lem now later key l h f u a le = ground arith
