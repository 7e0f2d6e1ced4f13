-- ===== src/Call/Invariant/Timing.antt =====
-- The invariant of Call.Invariant and the timers of src/calls/controller.ts.
use nuco_messenger.Call.Incoming.{
  callee_ring_fires, connect_fires, is_connecting, is_incoming_ringing, lose,
}
use nuco_messenger.Call.Invariant.{IsBounded, IsValid, is_ringing, ring_kind}
use nuco_messenger.Call.Invariant.Answering.{live_facts}
use nuco_messenger.Call.Invariant.Ending.{finish_live-IsValid, finish_told-IsValid}
use nuco_messenger.Call.Machine.{fire, fire_ring, fire_rule}
use nuco_messenger.Call.Media.{disconnect_fires, drop_active, is_reconnecting}
use nuco_messenger.Call.Outgoing.{caller_ring_fires, is_outgoing_ringing, with_current_live}
use nuco_messenger.Call.State.{
  ActiveCall, Config, Controller, Timer, TimerKind, callee_ring, caller_ring, clear_connect,
  clear_disconnect, clear_ring,
}
use nuco_messenger.Call.Teardown.{completed_row, row_for}
use nuco_messenger.Call.Types.{
  connection_lost, ended, error, error_marker, incoming, incoming_ringing, missed_call, no_answer,
  outgoing, outgoing_ringing, timeout,
}
use nuco_messenger.Prelude.{Bool-cases, arith, false, inl, inr, none, refl, some, true, ℕ, ◌≡◌}

module _ (cfg : Config) (c : Controller) (v : IsValid c) where
  ring_live :
      (t : Timer) (k : ActiveCall)
      → c.ring_timer ≡ some t
      → c.call ≡ some k
      → (k.ref ≡ t.ref)
        × (t.kind ≡ ring_kind k.direction)
        × (is_ringing c.status ≡ true)
        × (k.direction ≡ outgoing → c.status ≡ outgoing_ringing)
        × (k.direction ≡ incoming → c.status ≡ incoming_ringing)
  ring_live t k e f = ground arith

  ring_has_call : (t : Timer) → c.ring_timer ≡ some t → (k : ActiveCall) × (c.call ≡ some k)
  ring_has_call t e = ground arith

  bounded : IsBounded (clear_ring c)
  bounded = record { distinct = v.recent.distinct; bounded = v.recent.bounded }

  ring_in-IsValid :
      (t : Timer) (k : ActiveCall)
      → c.ring_timer ≡ some t
      → c.call ≡ some k
      → (s : TimerKind) → t.kind ≡ s
      → IsValid (fire_ring cfg s t.ref c)
  unfolding fire_ring caller_ring_fires callee_ring_fires
  ring_in-IsValid t k e f caller_ring h =
      rw (with_current_live k t.ref _ (clear_ring c) f (ring_live t k e f).0) (
        rw rings (
          finish_told-IsValid cfg no_answer (some (row_for k missed_call none false)) timeout k
            (clear_ring c) f (live_facts f v).0 (live_facts f v).1 bounded))
    where
      rings : is_outgoing_ringing c.status ≡ true
      rings = ground (arith, ring_live t k e f)
  ring_in-IsValid t k e f callee_ring h =
      rw (with_current_live k t.ref _ (clear_ring c) f (ring_live t k e f).0) (
        rw rings (
          finish_live-IsValid cfg ended (some (row_for k missed_call none true)) k (clear_ring c) f
            (live_facts f v).0 (live_facts f v).1 bounded))
    where
      rings : is_incoming_ringing c.status ≡ true
      rings = ground (arith, ring_live t k e f)
  ring_in-IsValid t k e f _ h = v

  pub ring_fires-IsValid : IsValid (fire c.ring_timer (λ t. fire_ring cfg t.kind t.ref) c)
  ring_fires-IsValid =
      fire_rule IsValid c.ring_timer (λ t. fire_ring cfg t.kind t.ref) c v
        λ t e. let (k, f) = ring_has_call t e in ring_in-IsValid t k e f t.kind refl

  connect_live :
      (t : Timer)
      → c.connect_timer ≡ some t
      → (k : ActiveCall) × (c.call ≡ some k) × (k.ref ≡ t.ref)
  connect_live t e = ground arith

  -- A window that ends in a later status of the same call changes nothing else.
  connect_late : is_connecting c.status ≡ false → IsValid (clear_connect c)
  connect_late h = ground arith

  pub connect_fires-IsValid : IsValid (fire c.connect_timer (λ t. connect_fires cfg t.ref) c)
  unfolding connect_fires lose
  connect_fires-IsValid =
      fire_rule IsValid c.connect_timer (λ t. connect_fires cfg t.ref) c v
        λ t e.
          let (k, f, r) = connect_live t e in
          rw (with_current_live k t.ref _ (clear_connect c) f r)
            (elim (Bool-cases (is_connecting c.status)) [
              | inl h ↦ rw h (
                  finish_told-IsValid cfg connection_lost
                    (some (row_for k missed_call (some error_marker) false)) error k
                    (clear_connect c) f (live_facts f v).0 (live_facts f v).1
                    (record { distinct = v.recent.distinct; bounded = v.recent.bounded }))
              | inr h ↦ rw h (connect_late h)
            ])

  grace_live :
      (t : Timer)
      → c.disconnect_timer ≡ some t
      → (k : ActiveCall) × (c.call ≡ some k) × (k.ref ≡ t.ref) × (is_reconnecting c.status ≡ true)
  grace_live t e = ground arith

  pub grace_ends-IsValid :
      (now : ℕ) → IsValid (fire c.disconnect_timer (λ t. disconnect_fires cfg now t.ref) c)
  unfolding disconnect_fires drop_active
  grace_ends-IsValid now =
      fire_rule IsValid c.disconnect_timer (λ t. disconnect_fires cfg now t.ref) c v
        λ t e.
          let (k, f, r, h) = grace_live t e in
          rw (with_current_live k t.ref _ (clear_disconnect c) f r) (
            rw h (
              finish_told-IsValid cfg connection_lost (some (completed_row k now)) error k
                (clear_disconnect c) f (live_facts f v).0 (live_facts f v).1
                (record { distinct = v.recent.distinct; bounded = v.recent.bounded })))
