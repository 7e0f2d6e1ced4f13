-- ===== src/AppLock/Away.antt =====
-- How the gate of src/lock/lock-controller.ts measures an absence, and how the app lock and the call
-- controller meet (src/services/calls.ts: `setAutoLockDeferral`, `setPreLockHook`).
use nuco_messenger.AppLock.Gate.{
  AppState, background, foreground, inactive, locks_now, note_away, on_app_state,
}
use nuco_messenger.AppLock.State.{Lock, is_unlocked}
use nuco_messenger.AppLock.Unlock.{drop_key, lock, show_locked}
use nuco_messenger.Call.Ends.{lock_task, on_app_locking}
use nuco_messenger.Call.Invariant.{IsValid}
use nuco_messenger.Call.Invariant.Histories.{run-init-IsValid}
use nuco_messenger.Call.Laws.Locking.{TellsOnce, hang_up-on_app_locking, peer_may_know}
use nuco_messenger.Call.Laws.Tests.{cfg}
use nuco_messenger.Call.Laws.Told.{told}
use nuco_messenger.Call.Machine.{Event, run}
use nuco_messenger.Call.State.{ActiveCall, Config, Controller, init}
use nuco_messenger.Prelude.{
  Bool, List, Option-cases, String, [], ap, arith, false, inl, inr, is_some, ltb, none, not, refl,
  some, subst, sym, true, ℕ, ◌&&◌, ◌-◌, ◌∙◌, ◌∷◌, ◌≡◌,
}

-- `isInCall` of the call controller.
unfoldable pub is_in_call : Controller → Bool
is_in_call c = is_some c.call

abbrev pub gone : Bool → AppState
gone true = background
gone false = inactive

-- Further states without the foreground, each with its time.
unfoldable pub stay_away : List (ℕ × Bool) → Lock → Lock
stay_away [] l = l
stay_away ((now, b) ∷ rest) l = stay_away rest (on_app_state now false (gone b) l).1

note_away_again : (now since : ℕ) (l : Lock) → l.backgrounded_at ≡ some since → note_away now l ≡ l
unfolding note_away
note_away_again now since l e = ground arith

leave-again :
    (now since : ℕ) (b : Bool) (l : Lock)
    → l.backgrounded_at ≡ some since
    → (on_app_state now false (gone b) l).1 ≡ l
unfolding on_app_state
leave-again now since true l e = note_away_again now since l e
leave-again now since false l e = note_away_again now since l e

stay_away_lem :
    (rest : List (ℕ × Bool)) (since : ℕ) (l : Lock)
    → l.backgrounded_at ≡ some since
    → stay_away rest l ≡ l
unfolding stay_away
stay_away_lem [] since l e = refl
stay_away_lem ((now, b) ∷ rest) since l e =
    ap (stay_away rest) (leave-again now since b l e) ∙ stay_away_lem rest since l e

leave-first :
    (since : ℕ) (b : Bool) (l : Lock)
    → l.backgrounded_at ≡ none
    → (on_app_state since false (gone b) l).1 ≡ record l { backgrounded_at = some since }
unfolding on_app_state note_away
leave-first since true l e = ground arith
leave-first since false l e = ground arith

-- When the app comes back to the foreground, it locks exactly if it has been away, since it first left
-- the foreground, for longer than the limit and no call is live, whatever other background and
-- inactive states came in between; and the measure starts anew.
pub absence_measured :
    (since : ℕ) (b : Bool) (rest : List (ℕ × Bool)) (now : ℕ) (deferred : Bool) (l : Lock)
    → l.backgrounded_at ≡ none
    → let away = stay_away rest (on_app_state since false (gone b) l).1 in
      let (locks, back) = on_app_state now deferred foreground away in
      (locks ≡ (ltb l.auto_lock_ms (now - since) && not deferred))
      × (back.backgrounded_at ≡ none)
      × (back.db_key ≡ l.db_key)
      × (back.lock_status ≡ l.lock_status)
unfolding on_app_state note_away locks_now
absence_measured since b rest now deferred l e =
    rw
      (
        leave-first since b l e,
        stay_away_lem rest since (record l { backgrounded_at = some since }) refl,
      )
      (refl, refl, refl, refl)

-- The hook that the call service registers.
abbrev pub end_call : ℕ → Lock → Controller → Controller
end_call now l c = on_app_locking now c

idle_lock_lem : (now : ℕ) (c : Controller) → c.call ≡ none → on_app_locking now c ≡ c
unfolding on_app_locking lock_task
idle_lock_lem now c e = ground arith

deferred_lem : (now : ℕ) (l : Lock) → locks_now now true l ≡ false
unfolding locks_now
deferred_lem now l = ground arith

locked_tells :
    (cfg : Config) (now : ℕ) (c : Controller)
    → IsValid c
    → (k : ActiveCall) → c.call ≡ some k
    → TellsOnce
        (peer_may_know c.status k.offer_send_started)
        k
        (told c.trace)
        (told (on_app_locking now c).trace)
locked_tells cfg now c v k e =
    let (gone, over, dropped, rested, same, once) = hang_up-on_app_locking cfg now c k v e in
    subst (TellsOnce (peer_may_know c.status k.offer_send_started) k (told c.trace)) (sym same) once

-- In every history of the call controller: coming back to the foreground locks the app only if no call
-- is live, so the automatic lock tells nobody anything; an explicit lock during a live call always
-- ends the call. Either way the lock leaves no key, no open database and no live call, and if there
-- was a call and its peer may have heard of it, the peer is told its end once and one row is written
-- for it.
pub lock_ends_call :
    (cfg : Config) (wins : String → String → Bool) (es : List (ℕ × Event)) (now : ℕ) (l : Lock)
    → let c = run cfg wins es init in
      let (after, d) = lock (end_call now) l c in
      ((on_app_state now (is_in_call c) foreground l).0 ≡ true → d ≡ c)
      × (after.db_key ≡ none)
      × (after.connected ≡ false)
      × (is_unlocked after ≡ false)
      × (d.call ≡ none)
      × ((k : ActiveCall)
          → c.call ≡ some k
          → TellsOnce (peer_may_know c.status k.offer_send_started) k (told c.trace) (told d.trace))
unfolding lock drop_key show_locked is_unlocked on_app_state locks_now is_in_call
lock_ends_call cfg wins es now l = elim (Option-cases (run cfg wins es init).call) [
  | inl free ↦ (
    λ locks. idle_lock_lem now _ free,
    refl,
    refl,
    refl,
    ap (λ (x : Controller). x.call) (idle_lock_lem now _ free) ∙ free,
    λ k e. cc,
  )
  | inr (k, e) ↦
      let ended =
        hang_up-on_app_locking cfg now (run cfg wins es init) k (run-init-IsValid cfg wins es) e in
      (
        λ locks. ground (arith, deferred_lem now l),
        refl,
        refl,
        refl,
        ended.2,
        locked_tells cfg now (run cfg wins es init) (run-init-IsValid cfg wins es),
      )
]
