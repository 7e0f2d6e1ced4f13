-- ===== src/Relay/Replies.antt =====
-- The ends of the requests of src/transport/relay.ts, and the outbound queue.
use nuco_messenger.Prelude.{
  List, Option, Option-cases, String, [], ap, arith, false, inl, inr, none, refl, some, subst, sym,
  ℕ, ◌++◌, ◌∙◌, ◌∷◌, ◌≡◌, ◌≤◌, ◌⊎◌,
}
use nuco_messenger.Prelude.Rows.{discard-Every, first_row}
use nuco_messenger.Relay.Flights.{
  IsBelow, IsOrdered, IsOrdered-discard, flights-discard, of_purpose,
}
use nuco_messenger.Relay.Flushing.{Serves, flushed-Serves}
use nuco_messenger.Relay.Handshake.{connection_closed, reject_all, settle_request, settle_rid}
use nuco_messenger.Relay.Queue.{flushed}
use nuco_messenger.Relay.Requests.{find_request, forget_request, has_rid}
use nuco_messenger.Relay.Serving.{Carries, Core, IsServing, core, core-settle_request, is_flush}
use nuco_messenger.Relay.State.{
  Client, Options, Parcel, Pending, Purpose, flushes, is_connected, registers,
}

only_one :
    (before after : List Parcel) (p q : Parcel)
    → before ++ p ∷ after ≡ q ∷ []
    → (before ≡ []) × (after ≡ []) × (p ≡ q)
only_one [] after p q e = (refl, cc, cc)
only_one (x ∷ []) after p q e = cc
only_one (x ∷ y ∷ ys) after p q e = cc

not_none : (before after : List Parcel) (p : Parcel) → ¬ (before ++ p ∷ after ≡ [])
not_none [] after p e = cc
not_none (x ∷ xs) after p e = cc

-- The request is no longer pending.
forgotten :
    (n : ℕ) (c : Client)
    → IsServing (core c)
    → IsOrdered (forget_request n c).pending × IsBelow c.rid_counter (forget_request n c).pending
unfolding forget_request
forgotten n c v = (
  IsOrdered-discard n c.pending v.ordered,
  discard-Every (λ (p : Pending). p.rid ≤ c.rid_counter) (has_rid n) c.pending v.below,
)

other_end-Serves :
    (o : Options) (n : ℕ) (outcome : Option String) (c : Client) (q : Pending)
    → IsServing (core c)
    → first_row (has_rid n) c.pending ≡ some q
    → is_flush q.purpose ≡ false
    → Serves (core c) (core (settle_request o q.purpose outcome (forget_request n c)))
unfolding forget_request
other_end-Serves o n outcome c q v e f =
    let (h, b) = forgotten n c v in
    let (before, after, u, d) = flights-discard n c.pending q v.ordered e in
    let same = d ∙ sym (u ∙ ap (λ qs. before ++ qs) (bare q.purpose after f)) in
    subst (Serves (core c)) (sym (core-settle_request o q.purpose outcome (forget_request n c) f)) (
      record {
        ordered = h;
        below = b;
        carries = subst (λ fs. Carries fs c.outbound (is_connected c)) (sym same) v.carries;
      },
      refl,
    )
  where
    bare : (p : Purpose) (fs : List Parcel) → is_flush p ≡ false → of_purpose p fs ≡ fs
    bare (flushes x) fs n = cc
    bare _ fs n = refl

parcel_end-Serves :
    (o : Options) (n : ℕ) (outcome : Option String) (c : Client) (q : Pending) (p : Parcel)
    → IsServing (core c)
    → first_row (has_rid n) c.pending ≡ some q
    → q.purpose ≡ flushes p
    → Serves (core c) (core (settle_request o q.purpose outcome (forget_request n c)))
unfolding settle_request forget_request
parcel_end-Serves o n outcome c q p v e f =
    let (h, b) = forgotten n c v in
    let (before, after, u, d) = flights-discard n c.pending q v.ordered e in
    let held = u ∙ ap (λ r. before ++ of_purpose r after) f in
    subst (λ r. Serves (core c) (core (settle_request o r outcome (forget_request n c)))) (sym f)
      (elim v.carries [
        | inl (none_carried, waiting) ↦ absurd (not_none before after p (sym held ∙ none_carried))
        | inr (p', ps, one, queue) ↦
            let (x, y, z) = only_one before after p p' (sym held ∙ one) in
            flushed-Serves p ps outcome (forget_request n c) h b (d ∙ ap (λ qs. qs ++ after) x ∙ y)
              (queue ∙ ap (λ r. r ∷ ps) (sym z))
      ])

Purpose-cases : (p : Purpose) → (is_flush p ≡ false) ⊎ ((x : Parcel) × (p ≡ flushes x))
Purpose-cases (flushes x) = inr (x, refl)
Purpose-cases registers = inl refl
Purpose-cases _ = inl refl

settle_rid-none :
    (o : Options) (n : ℕ) (outcome : Option String) (c : Client)
    → first_row (has_rid n) c.pending ≡ none
    → settle_rid o n outcome c ≡ c
unfolding settle_rid find_request
settle_rid-none o n outcome c e = rw (settle_rid, find_request, e) refl

pub settle_rid-some :
    (o : Options) (n : ℕ) (outcome : Option String) (c : Client) (q : Pending)
    → first_row (has_rid n) c.pending ≡ some q
    → settle_rid o n outcome c ≡ settle_request o q.purpose outcome (forget_request n c)
unfolding settle_rid find_request
settle_rid-some o n outcome c q e = rw (settle_rid, find_request, e) refl

-- A reply to a request, or its timeout.
pub settle_rid-Serves :
    (o : Options) (n : ℕ) (outcome : Option String) (c : Client)
    → IsServing (core c)
    → Serves (core c) (core (settle_rid o n outcome c))
settle_rid-Serves o n outcome c v = elim (Option-cases (first_row (has_rid n) c.pending)) [
  | inl e ↦ subst (λ d. Serves (core c) (core d)) (sym (settle_rid-none o n outcome c e)) (v, refl)
  | inr (q, e) ↦
      subst (λ d. Serves (core c) (core d)) (sym (settle_rid-some o n outcome c q e))
        (elim (Purpose-cases q.purpose) [
          | inl f ↦ other_end-Serves o n outcome c q v e f
          | inr (p, f) ↦ parcel_end-Serves o n outcome c q p v e f
        ])
]

flushed_down :
    (o : Options) (p : Parcel) (why : String) (c : Client)
    → is_connected c ≡ false
    → core (settle_request o (flushes p) (some why) c) ≡ core c
unfolding settle_request flushed
flushed_down o p why c d = ground (arith, d)

rejected :
    (o : Options) (p : Purpose) (why : String) (c : Client)
    → is_connected c ≡ false
    → core (settle_request o p (some why) c) ≡ core c
rejected o p why c d = elim (Purpose-cases p) [
  | inl f ↦ core-settle_request o p (some why) c f
  | inr (x, f) ↦
      subst (λ r. core (settle_request o r (some why) c) ≡ core c) (sym f)
        (flushed_down o x why c d)
]

-- The promises that the end of a connection rejects leave the queue alone.
pub core-reject_all :
    (o : Options) (qs : List Pending) (c : Client)
    → is_connected c ≡ false
    → core (reject_all o qs c) ≡ core c
unfolding reject_all
core-reject_all o [] c d = refl
core-reject_all o (q ∷ qs) c d =
    let e = rejected o q.purpose connection_closed c d in
    core-reject_all o qs (settle_request o q.purpose (some connection_closed) c)
      (ap (λ (k : Core). k.is_up) e ∙ d)
    ∙ e
