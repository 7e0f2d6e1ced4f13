-- ===== src/Relay/Handshake.antt =====
-- src/transport/relay.ts: registration, the replies to requests, and the end of a connection.
use nuco_messenger.Prelude.{
  Bool, List, Option, String, [], false, if◌then◌else◌, ltb, none, not, some, str_eq, true, ℕ, ◌&&◌,
  ◌==◌, ◌||◌, ◌∷◌,
}
use nuco_messenger.Relay.Connection.{
  on_authenticated, on_connected, schedule_reconnect, send_authenticate,
}
use nuco_messenger.Relay.Queue.{flushed}
use nuco_messenger.Relay.Requests.{find_request, forget_request, start_request}
use nuco_messenger.Relay.State.{
  Client, Options, Pending, Purpose, RelayStatus, answers, asks_turn, attests, close_socket,
  delivers, flushes, has_challenge, note, registers, reports, reports_error, set_relay_status,
}

abbrev pub attestation_required : String
attestation_required = "ATTESTATION_REQUIRED"

abbrev pub attestation_failed : String
attestation_failed = "ATTESTATION_FAILED"

abbrev pub not_registered : String
not_registered = "NOT_REGISTERED"

-- `failRegistration`.
unfoldable pub fail_registration : String → Client → Client
unfolding close_socket
fail_registration code c = close_socket (note (reports_error code) c)

-- `registerThenAuthenticate`, up to its await.
unfoldable pub register_then_authenticate : Options → Client → Client
unfolding start_request close_socket
register_then_authenticate o c =
    if not o.has_registration || c.did_try_register
    then close_socket c
    else start_request registers (record c { did_try_register = true })

-- `registerWithAttestation`, up to the await of the provider: none when it waits for the attestation.
unfoldable pub register_with_attestation : Options → Client → Client
unfolding fail_registration
register_with_attestation o c =
    if o.has_attestation && has_challenge c then c else fail_registration attestation_required c

-- The provider answers: an attestation or null, or it throws.
pub data Attestation : Type 0 where
  attested unattested provider_failed : Attestation

unfoldable pub attestation_comes : Attestation → Client → Client
unfolding start_request fail_registration
attestation_comes attested c = start_request attests c
attestation_comes unattested c = fail_registration attestation_required c
attestation_comes provider_failed c = fail_registration attestation_failed c

-- `registerThenAuthenticate` after its await.
unfoldable pub registered : Options → Option String → Client → Client
unfolding send_authenticate register_with_attestation close_socket
registered o none c = send_authenticate c
registered o (some e) c =
    if str_eq e attestation_required then register_with_attestation o c else close_socket c

-- `registerWithAttestation` after the await of its request.
unfoldable pub attested_registered : Option String → Client → Client
unfolding send_authenticate fail_registration
attested_registered none c = send_authenticate c
attested_registered (some e) c = fail_registration attestation_failed c

-- What goes on when the promise of a request ends.
unfoldable pub settle_request : Options → Purpose → Option String → Client → Client
unfolding flushed registered attested_registered
settle_request o (flushes p) outcome c = flushed p outcome c
settle_request o registers outcome c = registered o outcome c
settle_request o attests outcome c = attested_registered outcome c
settle_request o p outcome c = note (answers p outcome) c

-- `settleRid`, and the timeout of a request.
unfoldable pub settle_rid : Options → ℕ → Option String → Client → Client
unfolding find_request forget_request settle_request
settle_rid o n outcome c = elim (find_request n c) [
  | none ↦ c
  | some p ↦ settle_request o p outcome (forget_request n c)
]

-- `ServerMessage`.
pub data ServerMessage : Type 0 where
  greets : String → ℕ × ℕ → ServerMessage
  authenticates : ServerMessage
  deliver : String → ServerMessage
  ok : ℕ → ServerMessage
  error_for : ℕ → String → ServerMessage
  error_alone : String → ServerMessage
  pong malformed : ServerMessage

-- `onMessage`.
unfoldable pub on_message : Options → ServerMessage → Client → Client
unfolding on_connected on_authenticated settle_rid register_then_authenticate
on_message o (greets challenge version) c = on_connected challenge version c
on_message o authenticates c = on_authenticated c
on_message o (deliver id) c = note (delivers id) c
on_message o (ok n) c = settle_rid o n none c
on_message o (error_for n code) c = settle_rid o n (some code) c
on_message o (error_alone code) c =
    if str_eq code not_registered && o.has_registration && not c.did_try_register
    then register_then_authenticate o c
    else note (reports_error code) c
on_message o pong c = c
on_message o malformed c = c

abbrev pub connection_closed : String
connection_closed = "connection closed"

-- The promises that `onClose` rejects; what awaits them goes on after `onClose` is done.
unfoldable pub reject_all : Options → List Pending → Client → Client
unfolding settle_request
reject_all o [] c = c
reject_all o (p ∷ ps) c = reject_all o ps (settle_request o p.purpose (some connection_closed) c)

-- `onClose`, with `random` for the jitter of a reconnect.
unfoldable pub on_close : Options → ℕ → Client → Client
unfolding reject_all schedule_reconnect
on_close o random c =
    let down = record c { heartbeat = false; pending = []; socket = none } in
    reject_all o c.pending (
      if c.closed_by_user || not o.auto_reconnect
      then set_relay_status RelayStatus.disconnected down
      else schedule_reconnect random down)

-- The requests of other callers. A reply that `turnCredentials` does not expect is not modelled.
abbrev pub lacks_turn : Option (ℕ × ℕ) → Bool
lacks_turn none = false
lacks_turn (some (major, minor)) = (major == 1) && ltb minor 3

abbrev pub lacks_reports : Option (ℕ × ℕ) → Bool
lacks_reports none = false
lacks_reports (some (major, minor)) = (major == 3) && ltb minor 2

-- `updateRegistration`, `deregister`, `turnCredentials` and `report` once the client is ready.
unfoldable pub call_relay : Purpose → Client → Client
unfolding start_request
call_relay asks_turn c =
    if lacks_turn c.server_version
    then note (answers asks_turn (some "CALLS_UNAVAILABLE")) c
    else start_request asks_turn c
call_relay reports c =
    if lacks_reports c.server_version
    then note (answers reports (some "REPORT_UNSUPPORTED")) c
    else start_request reports c
call_relay p c = start_request p c
