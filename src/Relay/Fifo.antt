-- ===== src/Relay/Fifo.antt =====
-- The queue of src/transport/relay.ts along the events of its machine.
use mathlib.Core.List.{append_assoc}
use nuco_messenger.Prelude.{
  Bool-cases, List, Option-cases, String, [], ap, arith, false, if_rule, inl, inr, none, not, refl,
  some, str_eq, subst, sym, true, ℕ, ◌&&◌, ◌++◌, ◌||◌, ◌∙◌, ◌∷◌, ◌≡◌,
}
use nuco_messenger.Relay.Connection.{
  cancel_reconnect, give_up_waiting, heartbeat_fires, on_authenticated, on_connected, open_socket,
  ready_all, reconnect_fires, send_authenticate, start_client, start_heartbeat, stop_client,
  wait_ready,
}
use nuco_messenger.Relay.Flights.{IsBelow, IsOrdered, flights}
use nuco_messenger.Relay.Flushing.{Serves, flush-Serves}
use nuco_messenger.Relay.Handshake.{
  Attestation, ServerMessage, attestation_comes, attestation_failed, attestation_required, attested,
  authenticates, call_relay, deliver, error_alone, error_for, fail_registration, greets,
  lacks_reports, lacks_turn, malformed, not_registered, ok, on_message, pong, provider_failed,
  register_then_authenticate, settle_rid, unattested,
}
use nuco_messenger.Relay.Machine.{
  ClientEvent, acks_envelope, attests_with, beats, calls, client_run, client_step, closed_with,
  errored, gives_up, handed, hands_over, is_call, opened, receives_message, reconnects, starts,
  stops, timed_out, times_out, waits,
}
use nuco_messenger.Relay.Queue.{send_ack}
use nuco_messenger.Relay.Replies.{settle_rid-Serves}
use nuco_messenger.Relay.Requests.{start_request}
use nuco_messenger.Relay.Serial.{
  Fits, IsSerial, Steps, closed-Steps, core-open_socket, core-stop_client, goes_down,
  hands_over-Steps, of_Serves, unchanged,
}
use nuco_messenger.Relay.Serving.{
  Carries, Core, IsServing, core, core-close_socket, core-fail_registration, core-ready_all,
  core-send_frame, core-start_request, is_flush, posted, requesting-IsServing, settled_parcels,
}
use nuco_messenger.Relay.State.{
  Client, Options, Parcel, Purpose, RelayStatus, acknowledge, answers, asks_turn, attests,
  authenticate, close_socket, connect, delivers, deregisters, flushes, is_connected, new_client,
  note, ping, registers, reports, reports_error, send_frame, set_relay_status, updates,
}

request-Steps :
    (p : Purpose) (c : Client)
    → is_flush p ≡ false
    → IsServing (core c)
    → Steps [] c (start_request p c)
request-Steps p c f v = of_Serves c (start_request p c) (
    subst (Serves (core c)) (sym (core-start_request p c))
      (requesting-IsServing p (core c) f v, refl))

call-Steps :
    (p : Purpose) (c : Client) → is_call p ≡ true → IsServing (core c) → Steps [] c (call_relay p c)
unfolding call_relay settled_parcels
call-Steps (flushes p) c e v = cc
call-Steps registers c e v = cc
call-Steps attests c e v = cc
call-Steps updates c e v = request-Steps updates c refl v
call-Steps deregisters c e v = request-Steps deregisters c refl v
call-Steps asks_turn c e v =
    if_rule (Steps [] c) (lacks_turn c.server_version)
      (unchanged c (note (answers asks_turn (some "CALLS_UNAVAILABLE")) c) v refl)
      (request-Steps asks_turn c refl v)
call-Steps reports c e v =
    if_rule (Steps [] c) (lacks_reports c.server_version)
      (unchanged c (note (answers reports (some "REPORT_UNSUPPORTED")) c) v refl)
      (request-Steps reports c refl v)

-- The relay lets the client in.
authenticated-Steps :
    (c : Client) → IsServing (core c) → flights c.pending ≡ [] → Steps [] c (on_authenticated c)
unfolding on_authenticated settled_parcels
authenticated-Steps c v none_carried =
    let up =
      start_heartbeat
        (set_relay_status RelayStatus.connected (record c { reconnect_attempts = 0 })) in
    let ready = ready_all up.ready_waiters (record up { ready_waiters = [] }) in
    let e = core-ready_all up.ready_waiters (record up { ready_waiters = [] }) in
    let (served, kept) =
      flush-Serves ready (subst (λ (k : Core). IsOrdered k.pending) (sym e) v.ordered)
        (subst (λ (k : Core). IsBelow k.rid_counter k.pending) (sym e) v.below)
        (ap (λ (k : Core). flights k.pending) e ∙ none_carried) in
    of_Serves c (on_authenticated c) (served, kept ∙ ap posted e)

register-Steps :
    (o : Options) (c : Client) → IsServing (core c) → Steps [] c (register_then_authenticate o c)
unfolding register_then_authenticate
register-Steps o c v =
    if_rule (Steps [] c) (not o.has_registration || c.did_try_register)
      (unchanged c (close_socket c) v (core-close_socket c))
      (request-Steps registers (record c { did_try_register = true }) refl v)

core-send_authenticate : (c : Client) → core (send_authenticate c) ≡ core c
unfolding send_authenticate
core-send_authenticate c = ground (arith, core-send_frame authenticate c)

message-Steps :
    (o : Options) (m : ServerMessage) (c : Client)
    → IsServing (core c)
    → Fits (receives_message m) c
    → Steps [] c (on_message o m c)
unfolding on_message on_connected settled_parcels
message-Steps o (greets challenge version) c v f =
    let greeted = record c {
      server_version = some version;
      pending_challenge = some challenge;
      did_try_register = false;
    } in
    unchanged c (on_connected challenge version c) v (core-send_authenticate greeted)
message-Steps o authenticates c v f = authenticated-Steps c v f
message-Steps o (deliver id) c v f = unchanged c (note (delivers id) c) v refl
message-Steps o (ok n) c v f = of_Serves c (settle_rid o n none c) (settle_rid-Serves o n none c v)
message-Steps o (error_for n code) c v f =
    of_Serves c (settle_rid o n (some code) c) (settle_rid-Serves o n (some code) c v)
message-Steps o (error_alone code) c v f =
    if_rule (Steps [] c)
      (str_eq code not_registered && o.has_registration && not c.did_try_register)
      (register-Steps o c v) (unchanged c (note (reports_error code) c) v refl)
message-Steps o pong c v f = unchanged c c v refl
message-Steps o malformed c v f = unchanged c c v refl

attested-Steps :
    (a : Attestation) (c : Client) → IsServing (core c) → Steps [] c (attestation_comes a c)
unfolding attestation_comes
attested-Steps attested c v = request-Steps attests c refl v
attested-Steps unattested c v =
    unchanged c (fail_registration attestation_required c) v
      (core-fail_registration attestation_required c)
attested-Steps provider_failed c v =
    unchanged c (fail_registration attestation_failed c) v
      (core-fail_registration attestation_failed c)

core-wait_ready : (k : ℕ) (c : Client) → core (wait_ready k c) ≡ core c
unfolding wait_ready settled_parcels
core-wait_ready k c = ground arith

core-heartbeat_fires : (c : Client) → core (heartbeat_fires c) ≡ core c
unfolding heartbeat_fires
core-heartbeat_fires c = ground (arith, core-send_frame ping c)

core-send_ack : (id : String) (c : Client) → core (send_ack id c) ≡ core c
unfolding send_ack
core-send_ack id c = ground (arith, core-send_frame (acknowledge id) c)

reconnect-Steps : (c : Client) → IsServing (core c) → Steps [] c (reconnect_fires c)
unfolding reconnect_fires
reconnect-Steps c v = elim (Option-cases c.reconnect_timer) [
  | inl e ↦ rw (reconnect_fires, e) (unchanged c c v refl)
  | inr (delay, e) ↦
      rw (reconnect_fires, e)
        (if_rule (Steps [] c) c.closed_by_user (unchanged c (cancel_reconnect c) v refl) (
          goes_down c (open_socket (cancel_reconnect c)) v (core-open_socket (cancel_reconnect c))))
]

abbrev added : ClientEvent → List Parcel
added e = handed (e ∷ [])

step-Steps :
    (o : Options) (e : ClientEvent) (c : Client)
    → IsServing (core c)
    → Fits e c
    → Steps (added e) c (client_step o e c)
unfolding client_step start_client give_up_waiting
step-Steps o starts c v f =
    goes_down c (start_client c) v (core-open_socket (record c { closed_by_user = false }))
step-Steps o stops c v f = goes_down c (stop_client c) v (core-stop_client c)
step-Steps o opened c v f = unchanged c (send_frame connect c) v (core-send_frame connect c)
step-Steps o errored c v f = unchanged c (close_socket c) v (core-close_socket c)
step-Steps o reconnects c v f = reconnect-Steps c v
step-Steps o beats c v f = unchanged c (heartbeat_fires c) v (core-heartbeat_fires c)
step-Steps o (closed_with random) c v f = closed-Steps o random c v
step-Steps o (receives_message m) c v f = message-Steps o m c v f
step-Steps o (times_out n) c v f =
    of_Serves c (settle_rid o n (some timed_out) c) (settle_rid-Serves o n (some timed_out) c v)
step-Steps o (hands_over p) c v f = hands_over-Steps p c v f
step-Steps o (acks_envelope id) c v f = unchanged c (send_ack id c) v (core-send_ack id c)
step-Steps o (waits k) c v f = unchanged c (wait_ready k c) v (core-wait_ready k c)
step-Steps o (gives_up k) c v f = unchanged c (give_up_waiting k c) v refl
step-Steps o (attests_with a) c v f = attested-Steps a c v
step-Steps o (calls p) c v f = elim (Bool-cases (is_call p)) [
  | inl e ↦ rw (client_step, e) (call-Steps p c e v)
  | inr e ↦ rw (client_step, e) (unchanged c c v refl)
]

handed-cons : (e : ClientEvent) (es : List ClientEvent) → handed (e ∷ es) ≡ added e ++ handed es
handed-cons (hands_over p) es = refl
handed-cons starts es = refl
handed-cons _ es = refl

run-Steps :
    (o : Options) (es : List ClientEvent) (c : Client)
    → IsServing (core c)
    → IsSerial o es c
    → Steps (handed es) c (client_run o es c)
unfolding client_run
run-Steps o [] c v s = unchanged c c v refl
run-Steps o (e ∷ es) c v s =
    let (served, first) = step-Steps o e c v s.0 in
    let (still, rest) = run-Steps o es (client_step o e c) served s.1 in
    (
      still,
      rest
          ∙ ap (λ ps. ps ++ handed es) first
          ∙ append_assoc (posted (core c)) (added e) (handed es)
          ∙ ap (λ ps. posted (core c) ++ ps) (sym (handed-cons e es)),
    )

new_client-IsServing : IsServing (core new_client)
unfolding flights
new_client-IsServing = record { ordered = tt; below = tt; carries = inl (refl, λ u. refl) }

-- Whatever the relay, the network, the timers and the other callers do, if the envelopes are handed
-- over one at a time while the client is connected, and the relay lets it in only when no request of an
-- earlier connection still carries an envelope, the client is a queue: the parcels whose promises have
-- ended, in the order of their ends, and then the parcels in the queue are together the parcels that
-- were handed over, in that order and each once. And a client that is connected waits for the reply to
-- the head of its queue, by one request, or its queue is empty.
pub serial_queue_lem :
    (o : Options) (es : List ClientEvent)
    → IsSerial o es new_client
    → let c = client_run o es new_client in
      (settled_parcels c.trace ++ c.outbound ≡ handed es)
      × Carries (flights c.pending) c.outbound (is_connected c)
unfolding settled_parcels
serial_queue_lem o es s =
    let (served, kept) = run-Steps o es new_client new_client-IsServing s in (kept, served.carries)
