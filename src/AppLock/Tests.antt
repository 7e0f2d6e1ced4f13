-- ===== src/AppLock/Tests.antt =====
-- Concrete absences, guesses and unlocks.
use nuco_messenger.AppLock.Away.{absence_measured, end_call, lock_ends_call, stay_away}
use nuco_messenger.AppLock.Gate.{background, foreground, on_app_state}
use nuco_messenger.AppLock.Guesses.{attack, besiege, guesses, guesses_bounded, restarts}
use nuco_messenger.AppLock.Opening.{OpensOnRelease, failed_migration_lem, unlock_opens}
use nuco_messenger.AppLock.State.{
  Lock, cold_start, hydrate, locked, lockout_remaining, no_failures, persist,
}
use nuco_messenger.AppLock.Unlock.{
  count_failure, lock, migration_fails, opens, released, try_pin, unlock_with_biometrics,
  unlock_with_pin,
}
use nuco_messenger.Call.Laws.Tests.{answered_call, cfg, first_wins}
use nuco_messenger.Call.Machine.{run}
use nuco_messenger.Call.State.{init}
use nuco_messenger.Prelude.{[], arith, false, none, refl, true, ◌*◌, ◌+◌, ◌-◌, ◌∷◌, ◌≡◌, ◌≤◌}

abbrev fresh_lock : Lock
unfolding cold_start
fresh_lock = cold_start none

guesses_bounded_example :
    let s =
      besiege "key"
        ((5, guesses) ∷ (5, guesses) ∷ (5, restarts) ∷ (5, guesses) ∷ [])
        (record { clock = 1000; tested = 0; lock = cold_start none }) in
    s.tested * 300000 ≤ 5 * (s.clock - 1000) + 9 * 300000
guesses_bounded_example =
    guesses_bounded "key" none 1000
      ((5, guesses) ∷ (5, guesses) ∷ (5, restarts) ∷ (5, guesses) ∷ []) refl

-- Of seven guesses in a row the last two are refused.
seven_guesses :
    (besiege "key"
      ((1, guesses)
        ∷ (1, guesses)
        ∷ (1, guesses)
        ∷ (1, guesses)
        ∷ (1, restarts)
        ∷ (1, guesses)
        ∷ (1, guesses)
        ∷ (1, restarts)
        ∷ (1, guesses)
        ∷ [])
      (record { clock = 1000; tested = 0; lock = cold_start none })).tested
    ≡ 5
unfolding besiege attack hydrate unlock_with_pin try_pin count_failure persist cold_start
    lockout_remaining
seven_guesses = refl

unlock_opens_example :
    OpensOnRelease
      (released "key")
      (cold_start none)
      (unlock_with_pin 7 (released "key") opens (cold_start none))
    × OpensOnRelease
        (released "key")
        (cold_start none)
        (unlock_with_biometrics 7 (released "key") opens (cold_start none))
unfolding cold_start
unlock_opens_example = unlock_opens 7 (released "key") opens (cold_start none) refl

abbrev loaded_lock : Lock
loaded_lock = record {
  db_key = none;
  lock_status = locked;
  backgrounded_at = none;
  auto_lock_ms = 60000;
  counters = no_failures;
  hydrated = true;
  stored = none;
  connected = false;
}

failed_migration_lem_example :
    let (passed, d) = unlock_with_pin 7 (released "key") migration_fails loaded_lock in
    (passed ≡ false)
    × (d.lock_status ≡ locked)
    × (d.connected ≡ true)
    × (d.counters.failed_attempts ≡ 1)
    × ((unlock_with_pin 9 (released "key") migration_fails d).0 ≡ true)
failed_migration_lem_example =
    failed_migration_lem 7 9 "key" loaded_lock refl refl (ground arith) (ground arith)
      (ground arith)

absence_measured_example :
    let away = stay_away ((20, false) ∷ []) (on_app_state 10 false background loaded_lock).1 in
    let (locks, back) = on_app_state 70011 false foreground away in
    (locks ≡ true)
    × (back.backgrounded_at ≡ none)
    × (back.db_key ≡ none)
    × (back.lock_status ≡ locked)
absence_measured_example = absence_measured 10 true ((20, false) ∷ []) 70011 false loaded_lock refl

lock_ends_call_example :
    (lock (end_call 2000) loaded_lock (run cfg first_wins answered_call init)).1.call ≡ none
lock_ends_call_example = (lock_ends_call cfg first_wins answered_call 2000 loaded_lock).4
