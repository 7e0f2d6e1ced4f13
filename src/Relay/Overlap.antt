-- ===== src/Relay/Overlap.antt =====
-- Two calls of `flushOutbound` of src/transport/relay.ts at the same time.
use mathlib.Core.List.{append_assoc}
use nuco_messenger.Prelude.{
  List, [], ap, arith, false, none, refl, some, suc, true, ℕ, ◌++◌, ◌∙◌, ◌∷◌, ◌≡◌,
}
use nuco_messenger.Prelude.Rows.{discard, first_row}
use nuco_messenger.Relay.Flushing.{flush_empty, flush_head}
use nuco_messenger.Relay.Handshake.{ok, on_message, settle_request, settle_rid}
use nuco_messenger.Relay.Machine.{
  ClientEvent, client_run, client_step, closed_with, hands_over, receives_message,
}
use nuco_messenger.Relay.Queue.{flush, flushed, rest_of, send_envelope, shift}
use nuco_messenger.Relay.Replies.{settle_rid-some}
use nuco_messenger.Relay.Requests.{forget_request, has_rid, start_request}
use nuco_messenger.Relay.Serial.{core-on_close}
use nuco_messenger.Relay.Serving.{Core, core, requesting, settled_parcels}
use nuco_messenger.Relay.State.{
  Client, Options, Parcel, Pending, RelayStatus, flushes, is_connected, note, send_frame, settles,
}

-- A client that is connected, without requests and with an empty queue.
-- The core once the relay has taken the request `n`, which carried `p`, and the queue is `ps` then.
abbrev taken : ℕ → Parcel → List Parcel → Core → Core
taken n p ps k = record k {
  pending = discard (has_rid n) k.pending;
  outbound = ps;
  settled = k.settled ++ p ∷ [];
}

taken_by_relay :
    (o : Options) (n : ℕ) (q : Pending) (p : Parcel) (c : Client)
    → first_row (has_rid n) c.pending ≡ some q
    → q.purpose ≡ flushes p
    → settle_rid o n none c ≡ flush (note (settles p none) (shift (forget_request n c)))
unfolding settle_request flushed
taken_by_relay o n q p c e f =
    settle_rid-some o n none c q e ∙ ap (λ r. settle_request o r none (forget_request n c)) f

goes_on :
    (o : Options) (n : ℕ) (q : Pending) (p b : Parcel) (ps : List Parcel) (c : Client)
    → first_row (has_rid n) c.pending ≡ some q
    → q.purpose ≡ flushes p
    → is_connected c ≡ true
    → rest_of c.outbound ≡ b ∷ ps
    → core (settle_rid o n none c) ≡ requesting (flushes b) (taken n p (b ∷ ps) (core c))
unfolding forget_request settled_parcels
goes_on o n q p b ps c e f u r =
    let next = note (settles p none) (shift (forget_request n c)) in
    ap core (taken_by_relay o n q p c e f)
    ∙ flush_head next b ps r u
    ∙ ap (λ qs. requesting (flushes b) (taken n p qs (core c))) r

goes_dry :
    (o : Options) (n : ℕ) (q : Pending) (p : Parcel) (c : Client)
    → first_row (has_rid n) c.pending ≡ some q
    → q.purpose ≡ flushes p
    → rest_of c.outbound ≡ []
    → core (settle_rid o n none c) ≡ taken n p [] (core c)
unfolding forget_request settled_parcels
goes_dry o n q p c e f r =
    let next = note (settles p none) (shift (forget_request n c)) in
    ap core (taken_by_relay o n q p c e f) ∙ flush_empty next r ∙ ap (λ qs. taken n p qs (core c)) r

abbrev pub idle : ℕ → ℕ → Client → Client
idle s n c = record c {
  socket = some s;
  status = RelayStatus.connected;
  rid_counter = n;
  pending = [];
  outbound = [];
}

-- The second envelope is handed over before the reply to the first one's request, then the relay takes
-- both requests, and the connection ends.
abbrev pub overlapping : ℕ → ℕ → Parcel → Parcel → List ClientEvent
overlapping n random a b =
    hands_over a
    ∷ hands_over b
    ∷ receives_message (ok (suc n))
    ∷ receives_message (ok (suc (suc n)))
    ∷ closed_with random
    ∷ []

abbrev both_requested : (o : Options) (s n : ℕ) (a b : Parcel) (c : Client) → Client
both_requested o s n a b c =
    client_step o (hands_over b) (client_step o (hands_over a) (idle s n c))

abbrev carrying : ℕ → Parcel → Pending
carrying n p = record { rid = n; purpose = flushes p }

head_found :
    (n : ℕ) (a b : Parcel)
    → first_row (has_rid n) (carrying n a ∷ carrying (suc n) b ∷ []) ≡ some (carrying n a)
unfolding first_row
head_found n a b = ground arith

head_leaves :
    (n : ℕ) (a b : Parcel)
    → discard (has_rid n) (carrying n a ∷ carrying (suc n) b ∷ []) ≡ carrying (suc n) b ∷ []
unfolding discard
head_leaves n a b = ground arith

first_taken :
    (o : Options) (s n : ℕ) (a b : Parcel) (c : Client)
    → core (settle_rid o (suc n) none (both_requested o s n a b c)) ≡ record {
      pending = carrying (suc (suc n)) a ∷ carrying (suc (suc (suc n))) b ∷ [];
      outbound = b ∷ [];
      rid_counter = suc (suc (suc n));
      is_up = true;
      settled = settled_parcels c.trace ++ a ∷ [];
    }
unfolding client_step send_envelope flush start_request send_frame settled_parcels
first_taken o s n a b c =
    goes_on o (suc n) (carrying (suc n) a) a b [] (both_requested o s n a b c)
      (head_found (suc n) a a) refl refl refl
    ∙ ap
        (λ qs. record {
          pending = qs ++ carrying (suc (suc (suc n))) b ∷ [];
          outbound = b ∷ [];
          rid_counter = suc (suc (suc n));
          is_up = true;
          settled = settled_parcels c.trace ++ a ∷ [];
        })
        (head_leaves (suc n) a a)

-- If a connected client with nothing in its queue and no request open, whatever it did before, is handed
-- a second envelope before the reply to the first one's request, the relay takes both requests, and the
-- connection then ends, the promise of the first envelope has ended twice, and the second envelope is
-- neither in the queue nor has its promise ended.
pub overlapping_flushes_lose :
    (o : Options) (s n random : ℕ) (a b : Parcel) (c : Client)
    → let d = client_run o (overlapping n random a b) (idle s n c) in
      (settled_parcels d.trace ≡ settled_parcels c.trace ++ a ∷ a ∷ []) × (d.outbound ≡ [])
unfolding client_run on_message
overlapping_flushes_lose o s n random a b c =
    let once = settle_rid o (suc n) none (both_requested o s n a b c) in
    let twice = settle_rid o (suc (suc n)) none once in
    let e = first_taken o s n a b c in
    let second = carrying (suc (suc n)) a in
    let found =
      ap (λ (k : Core). first_row (has_rid (suc (suc n))) k.pending) e
      ∙ head_found (suc (suc n)) a b in
    let dry =
      goes_dry o (suc (suc n)) second a once found refl (ap (λ (k : Core). rest_of k.outbound) e) in
    let closed =
      core-on_close o random twice
      ∙ ap (λ (k : Core). record k { pending = []; is_up = false }) dry in
    (
      ap (λ (k : Core). k.settled) closed
          ∙ ap (λ (k : Core). k.settled ++ a ∷ []) e
          ∙ append_assoc (settled_parcels c.trace) (a ∷ []) (a ∷ []),
      ap (λ (k : Core). k.outbound) closed,
    )
