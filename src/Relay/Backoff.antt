-- ===== src/Relay/Backoff.antt =====
-- The delays between the reconnects of src/transport/relay.ts.
use native.Mathlib.Nat.{mul-le-mul_left, one-le-pow}
use nuco_messenger.Prelude.{arith, min, refl, some, ℕ, ◌*◌, ◌/◌, ◌<◌, ◌^◌, ◌≡◌, ◌≤◌}
use nuco_messenger.Relay.Connection.{
  backoff_base_ms, backoff_delay, backoff_max_ms, schedule_reconnect,
}
use nuco_messenger.Relay.State.{Client}

jitter-bounds : (base random : ℕ) → random < 2 ^ 53 → 4 * (base * random / (4 * 2 ^ 53)) ≤ base
jitter-bounds base random r =
    let scaled : base * random ≤ base * 2 ^ 53 = mul-le-mul_left base (omega arith) in omega arith

-- With a random number below 1, the timer of a reconnect is set to at least the base doubled for each
-- attempt before, with its maximum, to at most a quarter more, and to no less than half a second.
pub backoff_bounds :
    (random : ℕ) (c : Client)
    → random < 2 ^ 53
    → let base = min backoff_max_ms (backoff_base_ms * 2 ^ c.reconnect_attempts) in
      let delay = backoff_delay c.reconnect_attempts random in
      ((schedule_reconnect random c).reconnect_timer ≡ some delay)
      × (base ≤ delay)
      × (4 * delay ≤ 5 * base)
      × (backoff_base_ms ≤ delay)
unfolding schedule_reconnect backoff_delay
backoff_bounds random c r =
    let base = min backoff_max_ms (backoff_base_ms * 2 ^ c.reconnect_attempts) in
    let jitter = jitter-bounds base random r in
    let grows = one-le-pow c.reconnect_attempts 2 (omega arith) in
    (refl, omega arith, omega arith, omega arith)
