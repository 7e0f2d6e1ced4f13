-- ===== src/Relay/Machine.antt =====
-- src/transport/relay.ts as one machine: what the socket, the timers, the attestation provider and the
-- callers do, in any order.
use nuco_messenger.Prelude.{Bool, List, String, [], false, if◌then◌else◌, some, true, ℕ, ◌∷◌}
use nuco_messenger.Relay.Connection.{
  give_up_waiting, heartbeat_fires, reconnect_fires, start_client, stop_client, wait_ready,
}
use nuco_messenger.Relay.Handshake.{
  Attestation, ServerMessage, attestation_comes, call_relay, on_close, on_message, settle_rid,
}
use nuco_messenger.Relay.Queue.{send_ack, send_envelope}
use nuco_messenger.Relay.State.{
  Client, Options, Parcel, Purpose, attests, close_socket, connect, flushes, registers, send_frame,
}

pub data ClientEvent : Type 0 where
  starts stops opened errored reconnects beats : ClientEvent
  closed_with : ℕ → ClientEvent
  receives_message : ServerMessage → ClientEvent
  times_out : ℕ → ClientEvent
  hands_over : Parcel → ClientEvent
  acks_envelope : String → ClientEvent
  waits gives_up : ℕ → ClientEvent
  attests_with : Attestation → ClientEvent
  calls : Purpose → ClientEvent

abbrev pub timed_out : String
timed_out = "relay request timed out"

-- The requests of the exported methods; a queued parcel is handed over by `sendEnvelope` alone.
abbrev pub is_call : Purpose → Bool
is_call (flushes p) = false
is_call registers = false
is_call attests = false
is_call _ = true

unfoldable pub client_step : Options → ClientEvent → Client → Client
unfolding start_client stop_client send_frame close_socket reconnect_fires heartbeat_fires on_close
    on_message settle_rid send_envelope send_ack wait_ready give_up_waiting attestation_comes
    call_relay
client_step o starts c = start_client c
client_step o stops c = stop_client c
client_step o opened c = send_frame connect c
client_step o errored c = close_socket c
client_step o reconnects c = reconnect_fires c
client_step o beats c = heartbeat_fires c
client_step o (closed_with random) c = on_close o random c
client_step o (receives_message m) c = on_message o m c
client_step o (times_out n) c = settle_rid o n (some timed_out) c
client_step o (hands_over p) c = send_envelope p c
client_step o (acks_envelope id) c = send_ack id c
client_step o (waits k) c = wait_ready k c
client_step o (gives_up k) c = give_up_waiting k c
client_step o (attests_with a) c = attestation_comes a c
client_step o (calls p) c = if is_call p then call_relay p c else c

-- The first event of the list comes first.
unfoldable pub client_run : Options → List ClientEvent → Client → Client
unfolding client_step
client_run o [] c = c
client_run o (e ∷ es) c = client_run o es (client_step o e c)

-- The parcels that were handed over, oldest first.
abbrev pub handed : List ClientEvent → List Parcel
handed [] = []
handed (hands_over p ∷ es) = p ∷ handed es
handed (_ ∷ es) = handed es
