-- ===== src/Relay/Serial.antt =====
-- The client of src/transport/relay.ts as a queue, when its envelopes are handed over one at a time.
use mathlib.Core.List.{append-nil, append_assoc}
use nuco_messenger.Prelude.{
  Bool-cases, List, [], ap, arith, false, if◌then◌else◌, inl, inr, none, not, refl, subst, sym,
  true, ℕ, ◌++◌, ◌||◌, ◌∙◌, ◌∷◌, ◌≡◌,
}
use nuco_messenger.Relay.Connection.{open_socket, schedule_reconnect, stop_client}
use nuco_messenger.Relay.Flights.{flights}
use nuco_messenger.Relay.Flushing.{Serves, flush-Serves}
use nuco_messenger.Relay.Handshake.{authenticates, on_close}
use nuco_messenger.Relay.Machine.{ClientEvent, client_step, hands_over, receives_message}
use nuco_messenger.Relay.Queue.{send_envelope}
use nuco_messenger.Relay.Replies.{core-reject_all}
use nuco_messenger.Relay.Serving.{Core, IsServing, core, posted, settled_parcels}
use nuco_messenger.Relay.State.{
  Client, Options, Parcel, RelayStatus, close_socket, is_connected, set_relay_status,
}

-- While the client is connected, an envelope is handed over only when the queue is empty; and the relay
-- lets the client in only when no request of an earlier connection carries a parcel.
abbrev pub Fits : ClientEvent → Client → Type 0
Fits (hands_over p) c = is_connected c ≡ true → c.outbound ≡ []
Fits (receives_message authenticates) c = flights c.pending ≡ []
Fits _ c = Unit {0}

abbrev pub IsSerial : Options → List ClientEvent → Client → Type 0
IsSerial o [] c = Unit {0}
IsSerial o (e ∷ es) c = Fits e c × IsSerial o es (client_step o e c)

-- A step keeps the queue served, and adds what was handed over at its end.
abbrev pub Steps : List Parcel → Client → Client → Type 0
Steps ps before after = IsServing (core after) × (posted (core after) ≡ posted (core before) ++ ps)

pub of_Serves : (c d : Client) → Serves (core c) (core d) → Steps [] c d
of_Serves c d (v, e) = (v, e ∙ sym (append-nil (posted (core c))))

pub unchanged : (c d : Client) → IsServing (core c) → core d ≡ core c → Steps [] c d
unchanged c d v e = of_Serves c d (subst (Serves (core c)) (sym e) (v, refl))

-- A client that is not connected, with the same queue and requests.
abbrev put_down : Core → Core
put_down k = record k { is_up = false }

down-IsServing : (k : Core) → IsServing k → IsServing (put_down k)
down-IsServing k v = record {
  ordered = v.ordered;
  below = v.below;
  carries = elim v.carries [
    | inl (none_carried, waiting) ↦ inl (none_carried, λ u. cc u)
    | inr (p, ps, one, queue) ↦ inr (p, ps, one, queue)
  ];
}

pub goes_down : (c d : Client) → IsServing (core c) → core d ≡ put_down (core c) → Steps [] c d
goes_down c d v e =
    of_Serves c d (subst (Serves (core c)) (sym e) (down-IsServing (core c) v, refl))

pub core-open_socket : (c : Client) → core (open_socket c) ≡ put_down (core c)
unfolding open_socket settled_parcels
core-open_socket c = ground arith

pub core-stop_client : (c : Client) → core (stop_client c) ≡ put_down (core c)
unfolding stop_client close_socket settled_parcels
core-stop_client c = ground arith

abbrev closing : Options → ℕ → Client → Client
closing o random c =
    let down = record c { heartbeat = false; pending = []; socket = none } in
    if c.closed_by_user || not o.auto_reconnect
    then set_relay_status RelayStatus.disconnected down
    else schedule_reconnect random down

core-closing :
    (o : Options) (random : ℕ) (c : Client)
    → core (closing o random c) ≡ record (core c) { pending = []; is_up = false }
unfolding schedule_reconnect settled_parcels
core-closing o random c = ground arith

pub core-on_close :
    (o : Options) (random : ℕ) (c : Client)
    → core (on_close o random c) ≡ record (core c) { pending = []; is_up = false }
unfolding on_close
core-on_close o random c =
    let down = core-closing o random c in
    core-reject_all o c.pending (closing o random c) (ap (λ (k : Core). k.is_up) down) ∙ down

-- The end of a connection.
pub closed-Steps :
    (o : Options) (random : ℕ) (c : Client) → IsServing (core c) → Steps [] c (on_close o random c)
unfolding flights
closed-Steps o random c v = of_Serves c (on_close o random c) (
    subst (Serves (core c)) (sym (core-on_close o random c))
      (record { ordered = tt; below = tt; carries = inl (refl, λ u. cc u) }, refl))

abbrev queued : Parcel → Client → Client
queued p c = record c { outbound = c.outbound ++ p ∷ [] }

none_carried : (c : Client) → IsServing (core c) → c.outbound ≡ [] → flights c.pending ≡ []
none_carried c v e = elim v.carries [
  | inl (clear, waiting) ↦ clear
  | inr (p, ps, one, queue) ↦ cc (queue, e)
]

queued_down :
    (p : Parcel) (c : Client)
    → IsServing (core c)
    → is_connected c ≡ false
    → IsServing (core (queued p c))
queued_down p c v d = record {
  ordered = v.ordered;
  below = v.below;
  carries = elim v.carries [
    | inl (clear, waiting) ↦ inl (clear, λ u. cc (u, d))
    | inr (q, qs, one, queue) ↦ inr (q, qs ++ p ∷ [], one, ap (λ ps. ps ++ p ∷ []) queue)
  ];
}

pub hands_over-Steps :
    (p : Parcel) (c : Client)
    → IsServing (core c)
    → Fits (hands_over p) c
    → Steps (p ∷ []) c (send_envelope p c)
unfolding send_envelope
hands_over-Steps p c v fits =
    let longer = sym (append_assoc (settled_parcels c.trace) c.outbound (p ∷ [])) in
    elim (Bool-cases (is_connected c)) [
      | inl u ↦
          let (served, kept) =
            flush-Serves (queued p c) v.ordered v.below (none_carried c v (fits u)) in
          rw (send_envelope, u) (served, kept ∙ longer)
      | inr d ↦ rw (send_envelope, d) (queued_down p c v d, longer)
    ]
