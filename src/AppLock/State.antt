-- ===== src/AppLock/State.antt =====
-- src/lock/lock-controller.ts: the module's variables, and the lockout counters.
use nuco_messenger.Prelude.{
  Bool, Option, String, false, if◌then◌else◌, is_some, none, some, true, ℕ, ◌-◌,
}

-- `LockStatus`.
pub data LockStatus : Type 0 where
  locked unlocking unlocked : LockStatus

-- `LockoutState` of the secure storage.
pub record Lockout : Type 0 where
  pub failed_attempts : ℕ
  pub lockout_until : ℕ

pub record Lock : Type 0 where
  pub db_key : Option String
  pub lock_status : LockStatus
  pub backgrounded_at : Option ℕ
  pub auto_lock_ms : ℕ
  pub counters : Lockout
  pub hydrated : Bool
  pub stored : Option Lockout
  pub connected : Bool

abbrev pub max_attempts : ℕ
max_attempts = 5

abbrev pub lockout_ms : ℕ
lockout_ms = 300000

abbrev pub no_failures : Lockout
no_failures = record { failed_attempts = 0; lockout_until = 0 }

-- A process that has just started, with what an earlier one saved.
unfoldable pub cold_start : Option Lockout → Lock
cold_start saved = record {
  db_key = none;
  lock_status = locked;
  backgrounded_at = none;
  auto_lock_ms = 60000;
  counters = no_failures;
  hydrated = false;
  stored = saved;
  connected = false;
}

abbrev loaded : Option Lockout → Lockout → Lockout
loaded none old = old
loaded (some saved) old = saved

-- `ensureLockoutHydrated`.
unfoldable pub hydrate : Lock → Lock
hydrate l =
    if l.hydrated then l else record l { hydrated = true; counters = loaded l.stored l.counters }

-- `persistLockout`.
unfoldable pub persist : Lock → Lock
persist l = record l { stored = some l.counters }

-- `isUnlocked`.
unfoldable pub is_unlocked : Lock → Bool
is_unlocked l = elim l.lock_status [ unlocked ↦ is_some l.db_key | _ ↦ false ]

-- `failedAttemptsRemaining`.
unfoldable pub attempts_remaining : Lock → ℕ
attempts_remaining l = max_attempts - l.counters.failed_attempts

-- `lockoutRemainingMs`.
unfoldable pub lockout_remaining : ℕ → Lock → ℕ
lockout_remaining now l = l.counters.lockout_until - now

-- `setAutoLockMs`.
unfoldable pub set_auto_lock_ms : ℕ → Lock → Lock
set_auto_lock_ms ms l = record l { auto_lock_ms = ms }
