-- ===== src/Relay/Connection.antt =====
-- src/transport/relay.ts: sockets, the handshake, and reconnects.
use nuco_messenger.Prelude.{
  Bool, List, String, [], false, if◌then◌else◌, min, none, some, suc, true, zero, ℕ, ◌*◌, ◌++◌, ◌+◌,
  ◌/◌, ◌==◌, ◌^◌, ◌∷◌,
}
use nuco_messenger.Prelude.Rows.{discard}
use nuco_messenger.Relay.Queue.{flush}
use nuco_messenger.Relay.State.{
  Client, RelayStatus, authenticate, close_socket, has_challenge, is_connected, note, opens, ping,
  readies, send_frame, set_relay_status,
}

-- `cancelReconnect`.
abbrev pub cancel_reconnect : Client → Client
cancel_reconnect c = record c { reconnect_timer = none }

abbrev opening_status : ℕ → RelayStatus
opening_status zero = RelayStatus.connecting
opening_status (suc n) = RelayStatus.reconnecting

-- `openSocket`.
unfoldable pub open_socket : Client → Client
open_socket c =
    let n = suc c.sockets in
    note (opens n)
      (record (set_relay_status (opening_status c.reconnect_attempts) (cancel_reconnect c)) {
        socket = some n;
        sockets = n;
      })

-- `start`.
unfoldable pub start_client : Client → Client
unfolding open_socket
start_client c = open_socket (record c { closed_by_user = false })

-- `stop`.
unfoldable pub stop_client : Client → Client
unfolding close_socket
stop_client c =
    let quiet = cancel_reconnect (record c { closed_by_user = true; heartbeat = false }) in
    set_relay_status RelayStatus.disconnected (record (close_socket quiet) { socket = none })

-- `ensureReady` and `waitUntilReady`: a caller waits under a number, unless the client is connected.
unfoldable pub wait_ready : ℕ → Client → Client
wait_ready k c =
    if is_connected c
    then note (readies k) c
    else record c { ready_waiters = c.ready_waiters ++ k ∷ [] }

abbrev is_waiter : ℕ → ℕ → Bool
is_waiter k j = j == k

-- The timeout of a waiting caller.
unfoldable pub give_up_waiting : ℕ → Client → Client
give_up_waiting k c = record c { ready_waiters = discard (is_waiter k) c.ready_waiters }

unfoldable pub ready_all : List ℕ → Client → Client
ready_all [] c = c
ready_all (k ∷ ks) c = ready_all ks (note (readies k) c)

-- `startHeartbeat`: the interval that runs is cleared, and a new one is set.
abbrev pub start_heartbeat : Client → Client
start_heartbeat c = record c { heartbeat = true }

-- The interval of the heartbeat.
unfoldable pub heartbeat_fires : Client → Client
unfolding send_frame
heartbeat_fires c = if c.heartbeat then send_frame ping c else c

-- `sendAuthenticate`.
unfoldable pub send_authenticate : Client → Client
unfolding send_frame
send_authenticate c = if has_challenge c then send_frame authenticate c else c

-- `onConnected`, with the relay's version from the frame.
unfoldable pub on_connected : String → ℕ × ℕ → Client → Client
unfolding send_authenticate
on_connected challenge version c = send_authenticate (record c {
  server_version = some version;
  pending_challenge = some challenge;
  did_try_register = false;
})

-- `onAuthenticated`.
unfoldable pub on_authenticated : Client → Client
unfolding ready_all flush
on_authenticated c =
    let up =
      start_heartbeat
        (set_relay_status RelayStatus.connected (record c { reconnect_attempts = 0 })) in
    flush (ready_all up.ready_waiters (record up { ready_waiters = [] }))

abbrev pub backoff_base_ms : ℕ
backoff_base_ms = 500

abbrev pub backoff_max_ms : ℕ
backoff_max_ms = 30000

-- The delay before the reconnect number `n`, in whole milliseconds as timers have it; `random` stands for
-- `Math.random()`, in units of 1 / 2^53.
unfoldable pub backoff_delay : ℕ → ℕ → ℕ
backoff_delay n random =
    let base = min backoff_max_ms (backoff_base_ms * 2 ^ n) in base + base * random / (4 * 2 ^ 53)

-- `scheduleReconnect`.
unfoldable pub schedule_reconnect : ℕ → Client → Client
unfolding backoff_delay
schedule_reconnect random c = record (set_relay_status RelayStatus.reconnecting c) {
  reconnect_attempts = suc c.reconnect_attempts;
  reconnect_timer = some (backoff_delay c.reconnect_attempts random);
}

-- The reconnect timer.
unfoldable pub reconnect_fires : Client → Client
unfolding open_socket
reconnect_fires c = elim c.reconnect_timer [
  | none ↦ c
  | some delay ↦
      let fired = cancel_reconnect c in if c.closed_by_user then fired else open_socket fired
]
