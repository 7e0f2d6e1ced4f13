-- ===== src/Relay/Queue.antt =====
-- src/transport/relay.ts: the outbound queue. A call of `flushOutbound` is cut at its await: `flush` runs
-- its loop up to the request, and `flushed` is what follows on the reply.
-- The loop of `flushOutbound` from its test: it requests the parcel at the head of the queue.
use nuco_messenger.Prelude.{List, Option, String, [], if◌then◌else◌, none, some, ◌++◌, ◌∷◌}
use nuco_messenger.Relay.Requests.{start_request}
use nuco_messenger.Relay.State.{
  Client, Parcel, acknowledge, flushes, is_connected, note, send_frame, settles,
}

unfoldable pub flush : Client → Client
unfolding start_request
flush c = elim c.outbound [
  | [] ↦ c
  | p ∷ ps ↦ if is_connected c then start_request (flushes p) c else c
]

abbrev pub rest_of : List Parcel → List Parcel
rest_of [] = []
rest_of (p ∷ ps) = ps

abbrev pub shift : Client → Client
shift c = record c { outbound = rest_of c.outbound }

-- The reply to the request of the parcel `p`, none for success; on an error of a client that is not
-- connected any more the loop ends with the queue as it is.
unfoldable pub flushed : Parcel → Option String → Client → Client
unfolding flush
flushed p none c = flush (note (settles p none) (shift c))
flushed p (some e) c = if is_connected c then flush (note (settles p (some e)) (shift c)) else c

-- `sendEnvelope`.
unfoldable pub send_envelope : Parcel → Client → Client
unfolding flush
send_envelope p c =
    let queued = record c { outbound = c.outbound ++ p ∷ [] } in
    if is_connected c then flush queued else queued

-- `ack`.
unfoldable pub send_ack : String → Client → Client
unfolding send_frame
send_ack id c = if is_connected c then send_frame (acknowledge id) c else c
