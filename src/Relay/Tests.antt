-- ===== src/Relay/Tests.antt =====
-- Runs of the client of the relay.
use nuco_messenger.Prelude.{List, [], arith, false, refl, true, ◌++◌, ◌∷◌, ◌≡◌, ◌≤◌}
use nuco_messenger.Prelude.Rows.{discard, first_row}
use nuco_messenger.Relay.Backoff.{backoff_bounds}
use nuco_messenger.Relay.Connection.{
  backoff_base_ms, backoff_delay, on_authenticated, open_socket, ready_all, schedule_reconnect,
  start_client,
}
use nuco_messenger.Relay.Fifo.{serial_queue_lem}
use nuco_messenger.Relay.Flights.{flights}
use nuco_messenger.Relay.Handshake.{
  authenticates, ok, on_close, on_message, reject_all, settle_request, settle_rid,
}
use nuco_messenger.Relay.Machine.{
  ClientEvent, client_run, client_step, closed_with, hands_over, opened, receives_message, starts,
}
use nuco_messenger.Relay.Overlap.{idle, overlapping, overlapping_flushes_lose}
use nuco_messenger.Relay.Queue.{flush, flushed, send_envelope}
use nuco_messenger.Relay.Requests.{find_request, forget_request, start_request}
use nuco_messenger.Relay.Serial.{IsSerial}
use nuco_messenger.Relay.Serving.{settled_parcels}
use nuco_messenger.Relay.State.{Options, Parcel, new_client, send_frame}

abbrev alone : Options
alone = record { has_registration = false; has_attestation = false; auto_reconnect = true }

abbrev parcel_a : Parcel
parcel_a = record { to = "ann"; envelope = "a" }

abbrev parcel_b : Parcel
parcel_b = record { to = "ann"; envelope = "b" }

-- Two envelopes are handed over while the client is down; the connection ends after the first is taken.
abbrev two_handed : List ClientEvent
two_handed =
    hands_over parcel_a
    ∷ hands_over parcel_b
    ∷ starts
    ∷ opened
    ∷ receives_message authenticates
    ∷ receives_message (ok 1)
    ∷ closed_with 0
    ∷ []

second_waits : (client_run alone two_handed new_client).outbound ≡ parcel_b ∷ []
unfolding client_run client_step send_envelope start_client open_socket send_frame on_message
    on_authenticated ready_all flush start_request settle_rid find_request forget_request first_row
    discard settle_request flushed on_close schedule_reconnect reject_all
second_waits = refl

two_handed-IsSerial : IsSerial alone two_handed new_client
unfolding client_step send_envelope start_client open_socket flights
two_handed-IsSerial = (λ u. cc u, (λ u. cc u, (tt, (tt, (refl, (tt, (tt, tt)))))))

serial_queue_lem_example :
    settled_parcels (client_run alone two_handed new_client).trace
      ++ (client_run alone two_handed new_client).outbound
    ≡ parcel_a ∷ parcel_b ∷ []
serial_queue_lem_example = (serial_queue_lem alone two_handed two_handed-IsSerial).0

overlapping_flushes_lose_example :
    (client_run alone (overlapping 5 0 parcel_a parcel_b) (idle 1 5 new_client)).outbound ≡ []
overlapping_flushes_lose_example =
    (overlapping_flushes_lose alone 1 5 0 parcel_a parcel_b new_client).1

backoff_bounds_example : backoff_base_ms ≤ backoff_delay 3 1000
backoff_bounds_example =
    (backoff_bounds 1000 (record new_client { reconnect_attempts = 3 }) (omega arith)).3
