-- ===== src/Relay/Serving.antt =====
-- The outbound queue of src/transport/relay.ts against its requests in flight.
use mathlib.Core.List.{append-nil}
use nuco_messenger.Prelude.{
  Bool, List, Option, String, [], ap, arith, false, inr, none, refl, some, subst, suc, sym, true, ℕ,
  ◌++◌, ◌∙◌, ◌∷◌, ◌≡◌, ◌⊎◌,
}
use nuco_messenger.Relay.Connection.{ready_all, send_authenticate}
use nuco_messenger.Relay.Flights.{
  IsBelow, IsBelow-append, IsOrdered, IsOrdered-append, flights, flights-append, of_purpose,
}
use nuco_messenger.Relay.Handshake.{
  attestation_failed, attestation_required, attested_registered, fail_registration,
  register_with_attestation, registered, settle_request,
}
use nuco_messenger.Relay.Requests.{start_request}
use nuco_messenger.Relay.State.{
  Client, ClientEffect, Frame, Options, Parcel, Pending, Purpose, attests, authenticate,
  close_socket, flushes, is_connected, note, readies, registers, reports_error, request, send_frame,
  settles,
}

-- The parcels whose promise has ended, oldest first.
unfoldable pub settled_parcels : List ClientEffect → List Parcel
settled_parcels [] = []
settled_parcels (settles p outcome ∷ es) = settled_parcels es ++ p ∷ []
settled_parcels (_ ∷ es) = settled_parcels es

-- What of the client the queue depends on.
pub record Core : Type 0 where
  pub pending : List Pending
  pub outbound : List Parcel
  pub rid_counter : ℕ
  pub is_up : Bool
  pub settled : List Parcel

abbrev pub core : Client → Core
core c = record {
  pending = c.pending;
  outbound = c.outbound;
  rid_counter = c.rid_counter;
  is_up = is_connected c;
  settled = settled_parcels c.trace;
}

-- At most one request carries a parcel, the one at the head of the queue; a client that is connected
-- and has no such request has an empty queue.
abbrev pub Carries : List Parcel → List Parcel → Bool → Type 0
Carries carried queued up =
    ((carried ≡ []) × (up ≡ true → queued ≡ []))
    ⊎ ((p : Parcel) × (ps : List Parcel) × (carried ≡ p ∷ []) × (queued ≡ p ∷ ps))

pub record IsServing (k : Core) : Type 0 where
  pub ordered : IsOrdered k.pending
  pub below : IsBelow k.rid_counter k.pending
  pub carries : Carries (flights k.pending) k.outbound k.is_up

-- All parcels that were handed over, oldest first.
abbrev pub posted : Core → List Parcel
posted k = k.settled ++ k.outbound

abbrev pub is_flush : Purpose → Bool
is_flush (flushes p) = true
is_flush _ = false

pub core-send_frame : (f : Frame) (c : Client) → core (send_frame f c) ≡ core c
unfolding send_frame settled_parcels
core-send_frame f c = ground arith

pub core-close_socket : (c : Client) → core (close_socket c) ≡ core c
unfolding close_socket settled_parcels
core-close_socket c = ground arith

pub core-fail_registration : (code : String) (c : Client) → core (fail_registration code c) ≡ core c
unfolding fail_registration settled_parcels
core-fail_registration code c = core-close_socket (note (reports_error code) c)

-- What goes on after a request that carries no parcel leaves the queue alone.
pub core-settle_request :
    (o : Options) (q : Purpose) (outcome : Option String) (c : Client)
    → is_flush q ≡ false
    → core (settle_request o q outcome c) ≡ core c
unfolding settle_request registered attested_registered register_with_attestation send_authenticate
    settled_parcels
core-settle_request o (flushes p) outcome c n = cc
core-settle_request o registers none c n = ground (arith, core-send_frame authenticate c)
core-settle_request o registers (some e) c n =
    ground (arith, core-close_socket c, core-fail_registration attestation_required c)
core-settle_request o attests none c n = ground (arith, core-send_frame authenticate c)
core-settle_request o attests (some e) c n = core-fail_registration attestation_failed c
core-settle_request o _ outcome c n = refl

pub core-ready_all : (ks : List ℕ) (c : Client) → core (ready_all ks c) ≡ core c
unfolding ready_all settled_parcels
core-ready_all [] c = refl
core-ready_all (k ∷ ks) c = core-ready_all ks (note (readies k) c)

-- The core after a request has been started.
abbrev pub requesting : Purpose → Core → Core
requesting p k = record k {
  rid_counter = suc k.rid_counter;
  pending = k.pending ++ record { rid = suc k.rid_counter; purpose = p } ∷ [];
}

pub core-start_request :
    (p : Purpose) (c : Client) → core (start_request p c) ≡ requesting p (core c)
unfolding start_request
core-start_request p c = core-send_frame (request (suc c.rid_counter) p) (record c {
  rid_counter = suc c.rid_counter;
  pending = c.pending ++ record { rid = suc c.rid_counter; purpose = p } ∷ [];
})

requesting_rids :
    (p : Purpose) (k : Core)
    → IsOrdered k.pending
    → IsBelow k.rid_counter k.pending
    → IsOrdered (requesting p k).pending
      × IsBelow (requesting p k).rid_counter (requesting p k).pending
requesting_rids p k h b =
    (IsOrdered-append k.rid_counter p k.pending b h, IsBelow-append k.rid_counter p k.pending b)

-- A request that carries no parcel.
pub requesting-IsServing :
    (p : Purpose) (k : Core) → is_flush p ≡ false → IsServing k → IsServing (requesting p k)
requesting-IsServing p k n v =
    let (o, b) = requesting_rids p k v.ordered v.below in
    record {
      ordered = o;
      below = b;
      carries =
          subst (λ fs. Carries fs k.outbound k.is_up)
            (sym (flights-append k.pending (suc k.rid_counter) p ∙ bare p (flights k.pending) n))
            v.carries;
    }
  where
    bare : (p : Purpose) (fs : List Parcel) → is_flush p ≡ false → fs ++ of_purpose p [] ≡ fs
    bare (flushes x) fs n = cc
    bare _ fs n = append-nil fs

-- A request of the head of the queue, when no other carries a parcel.
pub requesting_head-IsServing :
    (p : Parcel) (ps : List Parcel) (k : Core)
    → IsOrdered k.pending
    → IsBelow k.rid_counter k.pending
    → flights k.pending ≡ []
    → k.outbound ≡ p ∷ ps
    → IsServing (requesting (flushes p) k)
requesting_head-IsServing p ps k h b e q =
    let (o, l) = requesting_rids (flushes p) k h b in
    record {
      ordered = o;
      below = l;
      carries = inr (
        p,
        ps,
        flights-append k.pending (suc k.rid_counter) (flushes p) ∙ ap (λ fs. fs ++ p ∷ []) e,
        q,
      );
    }
