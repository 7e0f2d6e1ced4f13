-- ===== src/Call/Invariant.antt =====
-- What holds of the call controller between two events.
pub mod Recent
pub mod Ending
pub mod Starting
pub mod Answering
pub mod Timing
pub mod Talking
pub mod Receiving
pub mod Histories
use nuco_messenger.Prelude.{
  ◌≤◌, ◌≡◌, Bool, true, false, Option, none, some, [], is_some, length, arith,
}
use nuco_messenger.Prelude.Keys.{IsDistinct}
use nuco_messenger.Call.Types.{
  Direction, incoming, outgoing, Status, idle, starting, outgoing_ringing, incoming_ringing,
  connecting, active, reconnecting, ending,
}
use nuco_messenger.Call.State.{
  ActiveCall, Await, nothing, Controller, Timer, TimerKind, caller_ring, callee_ring, init,
  recent_call_ids_max,
}

abbrev pub is_live : Status → Bool
is_live idle = false
is_live ending = false
is_live _ = true

abbrev pub is_over : Status → Bool
is_over ending = true
is_over _ = false

abbrev pub is_ringing : Status → Bool
is_ringing outgoing_ringing = true
is_ringing incoming_ringing = true
is_ringing _ = false

abbrev pub is_back_soon : Status → Bool
is_back_soon reconnecting = true
is_back_soon _ = false

-- A timer that runs was set for the live call.
abbrev pub IsFor : Option Timer → Option ActiveCall → Type 0
IsFor none k = Unit {0}
IsFor (some t) none = ⊥
IsFor (some t) (some k) = t.ref ≡ k.ref

abbrev pub ring_kind : Direction → TimerKind
ring_kind outgoing = caller_ring
ring_kind incoming = callee_ring

-- The timer rings for this side of the call.
abbrev pub RingsFor : Option Timer → Option ActiveCall → Type 0
RingsFor none k = Unit {0}
RingsFor (some t) none = ⊥
RingsFor (some t) (some k) = (t.ref ≡ k.ref) × (t.kind ≡ ring_kind k.direction)

-- What the live call awaits fits its direction and the status of the controller.
abbrev pub Fits : Status → Direction → Await → Option Timer → Type 0
Fits starting outgoing nothing t = ⊥
Fits starting outgoing _ t = Unit {0}
Fits outgoing_ringing outgoing nothing t = Unit {0}
Fits incoming_ringing incoming nothing t = Unit {0}
Fits connecting _ nothing t = is_some t ≡ true
Fits connecting incoming _ t = Unit {0}
Fits active incoming _ t = Unit {0}
Fits active outgoing nothing t = Unit {0}
Fits reconnecting incoming _ t = Unit {0}
Fits reconnecting outgoing nothing t = Unit {0}
Fits _ _ _ t = ⊥

abbrev pub CallFits : Status → Option ActiveCall → Option Timer → Type 0
CallFits s none t = is_live s ≡ false
CallFits s (some k) t = Fits s k.direction k.awaiting t

pub record IsCoherent (c : Controller) : Type 0 where
  pub call_fits : CallFits c.status c.call c.connect_timer
  pub reason_over : is_some c.end_reason ≡ is_over c.status
  pub view_over : is_some c.ending_view ≡ is_over c.status

pub record IsTimed (c : Controller) : Type 0 where
  pub ring_rings : is_some c.ring_timer ≡ is_ringing c.status
  pub ring_for : RingsFor c.ring_timer c.call
  pub connect_for : IsFor c.connect_timer c.call
  pub grace_waits : is_some c.disconnect_timer ≡ is_back_soon c.status
  pub grace_for : IsFor c.disconnect_timer c.call
  pub linger_over : is_over c.status ≡ true → is_some c.linger_timer ≡ true
  pub linger_free : is_some c.call ≡ true → is_some c.linger_timer ≡ false
  pub no_orphans : c.orphans ≡ []

pub record IsBounded (c : Controller) : Type 0 where
  pub distinct : IsDistinct c.recently_ended
  pub bounded : length c.recently_ended ≤ recent_call_ids_max

pub record IsValid (c : Controller) : Type 0 where
  pub core : IsCoherent c
  pub timers : IsTimed c
  pub recent : IsBounded c

pub init-IsValid : IsValid init
unfolding init
init-IsValid = ground arith
