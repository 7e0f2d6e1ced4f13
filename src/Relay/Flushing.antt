-- ===== src/Relay/Flushing.antt =====
-- The loop of `flushOutbound` of src/transport/relay.ts, and what keeps it going.
use mathlib.Core.List.{append_assoc}
use nuco_messenger.Prelude.{
  Bool-cases, List, Option, String, [], ap, arith, false, inl, inr, none, refl, some, subst, sym,
  true, ◌++◌, ◌∙◌, ◌∷◌, ◌≡◌,
}
use nuco_messenger.Prelude.Batches.{List-cases}
use nuco_messenger.Relay.Flights.{IsBelow, IsOrdered, flights}
use nuco_messenger.Relay.Queue.{flush, flushed, rest_of, shift}
use nuco_messenger.Relay.Serving.{
  Core, IsServing, core, core-start_request, posted, requesting, requesting_head-IsServing,
  settled_parcels,
}
use nuco_messenger.Relay.State.{Client, Parcel, flushes, is_connected, note, settles}

-- An operation keeps the queue served, and what was handed over.
abbrev pub Serves : Core → Core → Type 0
Serves before after = IsServing after × (posted after ≡ posted before)

flush_down : (c : Client) → is_connected c ≡ false → core (flush c) ≡ core c
unfolding flush
flush_down c d = ground (arith, d)

pub flush_empty : (c : Client) → c.outbound ≡ [] → core (flush c) ≡ core c
unfolding flush
flush_empty c e = ap core {x = flush c} {y = c} (ground (arith, e))

pub flush_head :
    (c : Client) (p : Parcel) (ps : List Parcel)
    → c.outbound ≡ p ∷ ps
    → is_connected c ≡ true
    → core (flush c) ≡ requesting (flushes p) (core c)
unfolding flush
flush_head c p ps e u = rw (flush, e) (ground (arith, u, core-start_request (flushes p) c))

-- With no parcel in flight the loop takes up the head of the queue.
pub flush-Serves :
    (c : Client)
    → IsOrdered c.pending
    → IsBelow c.rid_counter c.pending
    → flights c.pending ≡ []
    → Serves (core c) (core (flush c))
flush-Serves c h b e = elim (Bool-cases (is_connected c)) [
  | inr d ↦
      subst (Serves (core c)) (sym (flush_down c d))
        (record { ordered = h; below = b; carries = inl (e, λ u. cc (u, d)) }, refl)
  | inl u ↦ elim (List-cases c.outbound) [
    | inl q ↦
        subst (Serves (core c)) (sym (flush_empty c q))
          (record { ordered = h; below = b; carries = inl (e, λ _. q) }, refl)
    | inr (p, ps, q) ↦
        subst (Serves (core c)) (sym (flush_head c p ps q u))
          (requesting_head-IsServing p ps (core c) h b e q, refl)
  ]
]

-- The parcel at the head has ended: it leaves the queue, and the loop goes on.
pub shifted-Serves :
    (p : Parcel) (ps : List Parcel) (outcome : Option String) (c : Client)
    → IsOrdered c.pending
    → IsBelow c.rid_counter c.pending
    → flights c.pending ≡ []
    → c.outbound ≡ p ∷ ps
    → Serves (core c) (core (flush (note (settles p outcome) (shift c))))
unfolding settled_parcels
shifted-Serves p ps outcome c h b e q =
    let next = note (settles p outcome) (shift c) in
    let (v, kept) = flush-Serves next h b e in
    (
      v,
      kept
          ∙ append_assoc (settled_parcels c.trace) (p ∷ []) (shift c).outbound
          ∙ ap (λ qs. settled_parcels c.trace ++ qs)
              (ap (λ (qs : List Parcel). p ∷ rest_of qs) q ∙ sym q),
    )

-- What follows on the end of the request of the parcel at the head.
pub flushed-Serves :
    (p : Parcel) (ps : List Parcel) (outcome : Option String) (c : Client)
    → IsOrdered c.pending
    → IsBelow c.rid_counter c.pending
    → flights c.pending ≡ []
    → c.outbound ≡ p ∷ ps
    → Serves (core c) (core (flushed p outcome c))
unfolding flushed
flushed-Serves p ps none c h b e q = shifted-Serves p ps none c h b e q
flushed-Serves p ps (some why) c h b e q = elim (Bool-cases (is_connected c)) [
  | inl u ↦ rw u (shifted-Serves p ps (some why) c h b e q)
  | inr d ↦ rw d (record { ordered = h; below = b; carries = inl (e, λ u. cc (u, d)) }, refl)
]
