-- ===== src/Call/Outgoing.antt =====
-- src/calls/controller.ts: `checkAvailability`, and `placeCall` cut at its awaits. Each part after an
-- await begins, as in the source, with the check that `this.call` is still the same object.
use nuco_messenger.Call.State.{
  ActiveCall, Await, Config, Controller, arm_ring, caller_ring, create_engine, engine_sdp, log,
  nothing, send_signal, set_status, signal_sent, turn_credentials,
}
use nuco_messenger.Call.Teardown.{clear_linger, finish, row_for, send_end}
use nuco_messenger.Call.Types.{
  Availability, Contact, Direction, Status, available, blocked, busy, failed, hangup, mic_failed,
  missed_call, no_answer, no_session, no_turn, offer, offline, outgoing, outgoing_ringing, starting,
  timeout,
}
use nuco_messenger.Prelude.{
  ==_iff, Bool, Bool-cases, Option, String, ap, false, if◌then◌else◌, inl, inr, is_some, none, not,
  refl, some, suc, true, ℕ, ◌==◌, ◌∙◌, ◌≡◌, ◌⊎◌,
}

-- What the engine's promise of an SDP comes to.
pub data EngineResult : Type 0 where
  produced : String → EngineResult
  mic_unavailable no_relay_candidates other_failure : EngineResult

-- `checkAvailability`, with what the dependencies answer.
unfoldable pub check_availability : Bool → Bool → Bool → Controller → Availability
check_availability is_blocked relay_connected has_session c =
    if is_some c.call
    then busy
    else if is_blocked
    then blocked
    else if not relay_connected
    then offline
    else if not has_session
    then no_session
    else available

-- The live call, if it is the object numbered `ref`.
abbrev pub current : ℕ → Option ActiveCall → Option ActiveCall
current ref none = none
current ref (some k) = if k.ref == ref then some k else none

-- The shape of a method that returns at once without a live call.
pub live_rule {ℓ} :
    (P : Controller → Type ℓ) (body : ActiveCall → Controller) (o : Option ActiveCall)
    {c : Controller}
    → P c
    → ((k : ActiveCall) → o ≡ some k → P (body k))
    → P (elim o [ none ↦ c | some k ↦ body k ])
live_rule P body none free live = free
live_rule P body (some k) free live = live k refl

pub live_lem :
    (body : ActiveCall → Controller) (c : Controller) (o : Option ActiveCall) (k : ActiveCall)
    → o ≡ some k
    → (elim o as (λ x. Controller) [ none ↦ c | some j ↦ body j ]) ≡ body k
live_lem body c o k e =
    ap (λ (x : Option ActiveCall). elim x as (λ y. Controller) [ none ↦ c | some j ↦ body j ]) e

-- The shape of a method with a part for each case.
pub call_rule {ℓ} :
    (P : Controller → Type ℓ) (body : ActiveCall → Controller) (o : Option ActiveCall)
    {d : Controller}
    → (o ≡ none → P d)
    → ((k : ActiveCall) → o ≡ some k → P (body k))
    → P (elim o [ none ↦ d | some k ↦ body k ])
call_rule P body none free live = free refl
call_rule P body (some k) free live = live k refl

pub current-cases :
    (ref : ℕ) (o : Option ActiveCall)
    → (current ref o ≡ none)
      ⊎ ((k : ActiveCall) × (o ≡ some k) × (k.ref ≡ ref) × (current ref o ≡ some k))
current-cases ref none = inl refl
current-cases ref (some k) = elim (Bool-cases (k.ref == ref)) [
  | inl e ↦ inr (k, refl, (==_iff k.ref ref).0 e, rw e)
  | inr e ↦ inl (rw e)
]

-- A part of an asynchronous method or a callback that was started for the object `ref`.
abbrev pub with_current : ℕ → (ActiveCall → Controller → Controller) → Controller → Controller
with_current ref body c = elim (current ref c.call) [ none ↦ c | some k ↦ body k c ]

-- Either the object is replaced, and nothing happens, or the body runs for it.
pub with_current_rule {ℓ} :
    (P : Controller → Type ℓ) (ref : ℕ) (body : ActiveCall → Controller → Controller)
    → (c : Controller) → P c
    → ((k : ActiveCall) → c.call ≡ some k → k.ref ≡ ref → P (body k c))
    → P (with_current ref body c)
with_current_rule P ref body c stale live = elim (current-cases ref c.call) [
  | inl e ↦ rw (e, with_current) stale
  | inr (k, e, r, f) ↦ rw (f, with_current) (live k e r)
]

pub with_current_live :
    (k : ActiveCall) (ref : ℕ) (body : ActiveCall → Controller → Controller) (c : Controller)
    → c.call ≡ some k
    → k.ref ≡ ref
    → with_current ref body c ≡ body k c
with_current_live k ref body c e r =
    ap
      (λ (o : Option ActiveCall). elim (current ref o) as (λ x. Controller) [
        | none ↦ c
        | some j ↦ body j c
      ])
      e
    ∙ ap (λ (o : Option ActiveCall). elim o as (λ x. Controller) [ none ↦ c | some j ↦ body j c ])
        found
  where
    found : current ref (some k) ≡ some k
    found = rw ((==_iff k.ref ref).1 r)

abbrev pub put_call : ActiveCall → Controller → Controller
put_call k c = record c { call = some k }

-- A new call object, in the slot.
unfoldable pub open_call :
    String → Contact → Direction → Option String → Await → Controller → Controller
open_call id contact direction offered awaiting c = record c {
  call = some (record {
    ref = c.next_ref;
    call_id = id;
    contact = contact;
    direction = direction;
    engine = false;
    pending_offer_sdp = offered;
    offer_send_started = false;
    answer_applied = false;
    active_since = none;
    muted = false;
    speaker = false;
    awaiting = awaiting;
  });
  next_ref = suc c.next_ref;
}

unfoldable pub start_call : Contact → String → Controller → Controller
unfolding open_call clear_linger set_status
start_call contact id c =
    set_status starting (clear_linger (open_call id contact outgoing none turn_credentials c))

-- `placeCall`, from the answer of `checkAvailability` up to the await of the TURN credentials.
unfoldable pub place_call : Availability → Contact → String → Controller → Availability × Controller
unfolding start_call
place_call available contact id c =
    if is_some c.call then (busy, c) else (available, start_call contact id c)
place_call refusal contact id c = (refusal, c)

unfoldable pub place_turn_body : Config → Bool → ActiveCall → Controller → Controller
place_turn_body cfg false k c = finish cfg no_turn none c
place_turn_body cfg true k c =
    log (create_engine k.ref) (put_call (record k { engine = true; awaiting = engine_sdp }) c)

unfoldable pub place_turn : Config → ℕ → Bool → Controller → Controller
unfolding place_turn_body
place_turn cfg ref got = with_current ref (place_turn_body cfg got)

unfoldable pub place_sdp_body : Config → EngineResult → ActiveCall → Controller → Controller
place_sdp_body cfg mic_unavailable k c = finish cfg mic_failed none c
place_sdp_body cfg no_relay_candidates k c = finish cfg no_turn none c
place_sdp_body cfg other_failure k c = finish cfg failed none c
place_sdp_body cfg (produced s) k c =
    log (send_signal k.contact.handle (offer k.call_id s))
      (put_call (record k { offer_send_started = true; awaiting = signal_sent }) c)

unfoldable pub place_sdp : Config → ℕ → EngineResult → Controller → Controller
unfolding place_sdp_body
place_sdp cfg ref result = with_current ref (place_sdp_body cfg result)

unfoldable pub place_sent_body : Config → Bool → ActiveCall → Controller → Controller
unfolding set_status arm_ring
place_sent_body cfg false k c = finish cfg failed none (send_end hangup c)
place_sent_body cfg true k c =
    arm_ring (record { kind = caller_ring; ref = k.ref; delay_ms = cfg.ring_timeout_ms })
      (set_status outgoing_ringing (put_call (record k { awaiting = nothing }) c))

unfoldable pub place_sent : Config → ℕ → Bool → Controller → Controller
unfolding place_sent_body
place_sent cfg ref sent = with_current ref (place_sent_body cfg sent)

abbrev pub is_outgoing_ringing : Status → Bool
is_outgoing_ringing outgoing_ringing = true
is_outgoing_ringing _ = false

-- The callback of the ring timer that `placeCall` sets.
unfoldable pub caller_ring_fires : Config → ℕ → Controller → Controller
caller_ring_fires cfg ref c =
    with_current ref
      (λ k d.
        if is_outgoing_ringing d.status
        then finish cfg no_answer (some (row_for k missed_call none false)) (send_end timeout d)
        else d)
      (record c { ring_timer = none })
