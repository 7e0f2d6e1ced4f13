-- ===== src/AppLock/Guesses.antt =====
-- How fast PINs can be guessed, against the lockout of src/lock/lock-controller.ts.
use nuco_messenger.AppLock.State.{
  Lock, Lockout, cold_start, hydrate, lockout_ms, lockout_remaining, max_attempts, no_failures,
  persist,
}
use nuco_messenger.AppLock.Unlock.{
  absent, count_failure, opens, released, throws, try_biometrics, try_pin, unlock_with_biometrics,
  unlock_with_pin,
}
use nuco_messenger.Prelude.{
  Bool, Bool-cases, List, Option, String, [], arith, false, if◌then◌else◌, inl, inr, leb, ltb, none,
  some, true, ℕ, ◌*◌, ◌+◌, ◌-◌, ◌<◌, ◌∷◌, ◌≡◌, ◌≤◌, ◌⊎◌,
}

-- What someone with the phone can do, without the right PIN.
pub data Attack : Type 0 where
  guesses restarts scans : Attack

-- `tested` counts the wrong PINs at whose place the right one would have opened the app: those that were
-- checked against the key at all.
pub record Siege : Type 0 where
  pub clock : ℕ
  pub tested : ℕ
  pub lock : Lock

module _ (key : String) where
  abbrev right_pin_opens : ℕ → Lock → Bool
  right_pin_opens now l = (unlock_with_pin now (released key) opens l).0

  unfoldable pub attack : ℕ → Attack → ℕ → Lock → Siege
  attack now guesses tested l = record {
    clock = now;
    tested = if right_pin_opens now l then tested + 1 else tested;
    lock = (unlock_with_pin now throws opens l).1;
  }
  attack now restarts tested l = record { clock = now; tested = tested; lock = cold_start l.stored }
  attack now scans tested l = record {
    clock = now;
    tested = tested;
    lock = (unlock_with_biometrics now absent opens l).1;
  }

  -- Each attack comes some time after the one before.
  unfoldable pub besiege : List (ℕ × Attack) → Siege → Siege
  unfolding attack
  besiege [] s = s
  besiege ((wait, a) ∷ rest) s = besiege rest (attack (s.clock + wait) a s.tested s.lock)

abbrev saved_counters : Option Lockout → Lockout
saved_counters none = no_failures
saved_counters (some saved) = saved

-- What is in memory is what was saved, or has not been loaded yet.
abbrev IsSaved : Bool → Lockout → Option Lockout → Type 0
IsSaved true counters saved = counters ≡ saved_counters saved
IsSaved false counters saved = counters ≡ no_failures

-- After `blocks` lockouts since `start`.
record IsHeld (start : ℕ) (s : Siege) (blocks : ℕ) : Type 0 where
  saved : IsSaved s.lock.hydrated s.lock.counters s.lock.stored
  few : (saved_counters s.lock.stored).failed_attempts < max_attempts
  counted : s.tested ≡ max_attempts * blocks + (saved_counters s.lock.stored).failed_attempts
  spaced :
      (blocks ≡ 0)
      ⊎ ((start + blocks * lockout_ms ≤ (saved_counters s.lock.stored).lockout_until)
          × ((saved_counters s.lock.stored).lockout_until ≤ s.clock + lockout_ms))
  later : start ≤ s.clock

attack-IsHeld :
    (key : String) (start blocks wait : ℕ) (a : Attack) (s : Siege)
    → IsHeld start s blocks
    → (more : ℕ) × IsHeld start (attack key (s.clock + wait) a s.tested s.lock) more
unfolding attack hydrate unlock_with_pin unlock_with_biometrics lockout_remaining try_pin
    try_biometrics count_failure persist cold_start
attack-IsHeld key start blocks wait guesses s h =
    elim (Bool-cases (ltb 0 (lockout_remaining (s.clock + wait) (hydrate s.lock)))) [
      | inl shut ↦ (blocks, ground arith)
      | inr free ↦
          elim (Bool-cases (leb max_attempts ((hydrate s.lock).counters.failed_attempts + 1))) [
            | inl full ↦ (blocks + 1, ground arith)
            | inr room ↦ (blocks, ground arith)
          ]
    ]
attack-IsHeld key start blocks wait restarts s h = (blocks, ground arith)
attack-IsHeld key start blocks wait scans s h = (blocks, ground arith)

besiege-IsHeld :
    (key : String) (start blocks : ℕ) (attacks : List (ℕ × Attack)) (s : Siege)
    → IsHeld start s blocks
    → (more : ℕ) × IsHeld start (besiege key attacks s) more
unfolding besiege
besiege-IsHeld key start blocks [] s h = (blocks, h)
besiege-IsHeld key start blocks ((wait, a) ∷ rest) s h =
    let (more, held) = attack-IsHeld key start blocks wait a s h in
    besiege-IsHeld key start more rest _ held

-- However someone without the PIN mixes guesses, one after another, with restarts of the app and
-- failed biometric scans, and however they time them: of all the guesses since a start with no failure
-- on record at most nine, and one more for each full minute that has passed, are checked at all, in that
-- the right PIN would have opened the app at their place.
pub guesses_bounded :
    (key : String) (saved : Option Lockout) (start : ℕ) (attacks : List (ℕ × Attack))
    → saved_counters saved ≡ no_failures
    → let s = besiege key attacks (record { clock = start; tested = 0; lock = cold_start saved }) in
      s.tested * lockout_ms ≤ max_attempts * (s.clock - start) + 9 * lockout_ms
unfolding cold_start
guesses_bounded key saved start attacks clean =
    let (blocks, held) =
      besiege-IsHeld key start 0 attacks
        (record { clock = start; tested = 0; lock = cold_start saved }) (ground arith) in
    ground arith
