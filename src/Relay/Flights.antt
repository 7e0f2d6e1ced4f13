-- ===== src/Relay/Flights.antt =====
-- The requests in flight of src/transport/relay.ts that carry a parcel.
use nuco_messenger.Prelude.{
  Bool-cases, List, [], ap, arith, if_rule, inl, inr, none, refl, some, subst, suc, true, ℕ, ◌++◌,
  ◌<◌, ◌∙◌, ◌∷◌, ◌≡◌, ◌≤◌,
}
use nuco_messenger.Prelude.Rows.{Every, discard, discard-Every, first_row}
use nuco_messenger.Relay.Requests.{has_rid}
use nuco_messenger.Relay.State.{Parcel, Pending, Purpose, flushes}

abbrev pub of_purpose : Purpose → List Parcel → List Parcel
of_purpose (flushes p) ps = p ∷ ps
of_purpose _ ps = ps

unfoldable pub flights : List Pending → List Parcel
flights [] = []
flights (q ∷ qs) = of_purpose q.purpose (flights qs)

-- Requests are numbered in order.
abbrev pub IsOrdered : List Pending → Type 0
IsOrdered [] = Unit {0}
IsOrdered (q ∷ qs) = Every (λ (p : Pending). q.rid < p.rid) qs × IsOrdered qs

abbrev pub IsBelow : ℕ → List Pending → Type 0
IsBelow n qs = Every (λ (p : Pending). p.rid ≤ n) qs

pub flights-append :
    (qs : List Pending) (n : ℕ) (p : Purpose)
    → flights (qs ++ record { rid = n; purpose = p } ∷ []) ≡ flights qs ++ of_purpose p []
unfolding flights
flights-append [] n p = refl
flights-append (q ∷ qs) n p = ground (arith, flights-append qs n p)

pub IsBelow-suc : (n : ℕ) (qs : List Pending) → IsBelow n qs → IsBelow (suc n) qs
IsBelow-suc n [] h = tt
IsBelow-suc n (q ∷ qs) h = (omega arith, IsBelow-suc n qs h.1)

pub IsBelow-append :
    (n : ℕ) (p : Purpose) (qs : List Pending)
    → IsBelow n qs
    → IsBelow (suc n) (qs ++ record { rid = suc n; purpose = p } ∷ [])
IsBelow-append n p [] h = (omega arith, tt)
IsBelow-append n p (q ∷ qs) h = (omega arith, IsBelow-append n p qs h.1)

above-append :
    (k n : ℕ) (p : Purpose) (qs : List Pending)
    → k ≤ n
    → Every (λ (q : Pending). k < q.rid) qs
    → Every (λ (q : Pending). k < q.rid) (qs ++ record { rid = suc n; purpose = p } ∷ [])
above-append k n p [] le h = (omega arith, tt)
above-append k n p (q ∷ qs) le h = (h.0, above-append k n p qs le h.1)

pub IsOrdered-append :
    (n : ℕ) (p : Purpose) (qs : List Pending)
    → IsBelow n qs
    → IsOrdered qs
    → IsOrdered (qs ++ record { rid = suc n; purpose = p } ∷ [])
IsOrdered-append n p [] b h = (tt, tt)
IsOrdered-append n p (q ∷ qs) b h =
    (above-append q.rid n p qs b.0 h.0, IsOrdered-append n p qs b.1 h.1)

pub IsOrdered-discard :
    (n : ℕ) (qs : List Pending) → IsOrdered qs → IsOrdered (discard (has_rid n) qs)
unfolding discard
IsOrdered-discard n [] h = h
IsOrdered-discard n (q ∷ qs) h =
    if_rule IsOrdered (has_rid n q) (IsOrdered-discard n qs h.1) (
      discard-Every (λ (p : Pending). q.rid < p.rid) (has_rid n) qs h.0,
      IsOrdered-discard n qs h.1,
    )

none_above :
    (n : ℕ) (qs : List Pending)
    → Every (λ (p : Pending). n < p.rid) qs
    → (discard (has_rid n) qs ≡ qs) × (first_row (has_rid n) qs ≡ none)
unfolding discard first_row
none_above n [] h = (refl, refl)
none_above n (q ∷ qs) h = ground (arith, none_above n qs h.1)

of_purpose-append :
    (p : Purpose) (xs ys : List Parcel) → of_purpose p (xs ++ ys) ≡ of_purpose p xs ++ ys
of_purpose-append (flushes p) xs ys = refl
of_purpose-append _ xs ys = refl

-- What the end of a request leaves in flight: all but its own parcel.
abbrev pub Splits : ℕ → List Pending → Pending → Type 0
Splits n qs q =
    (before : List Parcel) × (after : List Parcel) × (flights qs
      ≡ before ++ of_purpose q.purpose after)
    × (flights (discard (has_rid n) qs) ≡ before ++ after)

first-Splits :
    (n : ℕ) (r : Pending) (rs : List Pending)
    → Every (λ (p : Pending). r.rid < p.rid) rs
    → has_rid n r ≡ true
    → Splits n (r ∷ rs) r
unfolding flights discard
first-Splits n r rs h e =
    let same : r.rid ≡ n = ground (arith, e) in
    let gone = (none_above n rs (subst (λ k. Every (λ (p : Pending). k < p.rid) rs) same h)).0 in
    ([], flights rs, refl, rw e (ap flights gone))

pub flights-discard :
    (n : ℕ) (qs : List Pending) (q : Pending)
    → IsOrdered qs
    → first_row (has_rid n) qs ≡ some q
    → Splits n qs q
unfolding flights discard first_row
flights-discard n [] q h e = cc
flights-discard n (r ∷ rs) q h e = elim (Bool-cases (has_rid n r)) [
  | inl m ↦
      let found : r ≡ q = ground (arith, e, m) in
      subst (Splits n (r ∷ rs)) found (first-Splits n r rs h.0 m)
  | inr m ↦
      let (before, after, u, v) = flights-discard n rs q h.1 (ground (arith, e, m)) in
      (
        of_purpose r.purpose before,
        after,
        ap (of_purpose r.purpose) u
            ∙ of_purpose-append r.purpose before (of_purpose q.purpose after),
        rw m (ap (of_purpose r.purpose) v ∙ of_purpose-append r.purpose before after),
      )
]
