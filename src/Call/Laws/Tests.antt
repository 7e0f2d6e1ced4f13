-- ===== src/Call/Laws/Tests.antt =====
-- Concrete calls: the properties of the call controller at runs of it.
use nuco_messenger.Call.Ends.{LockTask, handle_call_signal, lock_teardown, on_app_locking}
use nuco_messenger.Call.Incoming.{hang_up}
use nuco_messenger.Call.Invariant.{IsValid}
use nuco_messenger.Call.Invariant.Histories.{run-init-IsValid}
use nuco_messenger.Call.Laws.Glare.{AnswersCall, glare_agrees}
use nuco_messenger.Call.Laws.Locking.{TellsOnce, hang_up-on_app_locking}
use nuco_messenger.Call.Laws.Offers.{
  KeepsCall, finished_call_is_deaf, offer_when_busy, offer_when_free_lem,
}
use nuco_messenger.Call.Laws.Rest.{IsPending, comes_to_rest, silence}
use nuco_messenger.Call.Laws.Superseded.{lock_drops_newer_call}
use nuco_messenger.Call.Laws.Told.{told}
use nuco_messenger.Call.Machine.{
  Event, answers, engine_settled, ice, places, receives, run, send_settled, step, turn_settled,
}
use nuco_messenger.Call.Outgoing.{place_call, place_sdp, place_turn, produced}
use nuco_messenger.Call.Signals.{glare_eligible, handle_offer, missed_offer}
use nuco_messenger.Call.State.{
  ActiveCall, Config, Controller, close_engine, configure, get_snapshot, init, on_state,
  send_signal, signal_sent, stop_call_audio, stop_incoming_ring, write_row,
}
use nuco_messenger.Call.Teardown.{finish}
use nuco_messenger.Call.Types.{
  Contact, accept, available, busy_elsewhere, connected, declined, ending, hangup, hung_up, idle,
  offer, outgoing, starting,
}
use nuco_messenger.Prelude.{
  Bool, List, String, [], arith, false, none, refl, some, str_eq, true, ℕ, ◌∷◌, ◌≡◌, ◌⊎◌,
}
use nuco_messenger.Prelude.Keys.{has}

unfoldable pub cfg : Config
unfolding configure
cfg = configure 45 120 (record {
  ring_timeout_ms = none;
  connect_timeout_ms = none;
  disconnect_grace_ms = none;
  ended_linger_ms = none;
  stale_offer_ms = none;
  signal_timeout_ms = none;
})

-- The smaller id wins, on the two ids used here.
abbrev pub first_wins : String → String → Bool
first_wins a b = str_eq a "call-a"

abbrev ann : Contact
ann = record { id = "1"; handle = "ann"; display_name = "Ann" }

abbrev ben : Contact
ben = record { id = "2"; handle = "ben"; display_name = "Ben" }

abbrev zoe : Contact
zoe = record { id = "3"; handle = "zoe"; display_name = "Zoe" }

-- Ben calls, this side answers, and the media connects.
abbrev pub answered_call : List (ℕ × Event)
answered_call =
    (0, receives ben (offer "call-b" "sdp") 0)
    ∷ (900, answers)
    ∷ (1000, turn_settled 0 true)
    ∷ (1100, engine_settled 0 (produced "answer"))
    ∷ (1200, send_settled 0 true)
    ∷ (1500, ice 0 connected)
    ∷ []

run-init-IsValid_example : IsValid (run cfg first_wins answered_call init)
run-init-IsValid_example = run-init-IsValid cfg first_wins answered_call

-- This side calls `to`; the offer is on its way.
abbrev calling : Contact → String → List (ℕ × Event)
calling to id =
    (0, places available to id)
    ∷ (10, turn_settled 0 true)
    ∷ (20, engine_settled 0 (produced "offer"))
    ∷ []

-- What the two sides of a glare have reached.
unfoldable at_ann : Controller
at_ann = run cfg first_wins (calling ben "call-a") init

unfoldable at_ben : Controller
at_ben = run cfg first_wins (calling ann "call-b") init

at_ben_runs :
    (at_ben.status ≡ starting)
    × (told at_ben.trace ≡ send_signal "ann" (offer "call-b" "offer") ∷ [])
unfolding at_ben run init place_call place_turn place_sdp told
at_ben_runs = (refl, refl)

-- The call object of a side that called `to`.
abbrev caller : Contact → String → ActiveCall
caller to id = record {
  ref = 0;
  call_id = id;
  contact = to;
  direction = outgoing;
  engine = true;
  pending_offer_sdp = none;
  offer_send_started = true;
  answer_applied = false;
  active_since = none;
  muted = false;
  speaker = false;
  awaiting = signal_sent;
}

at_ann_call : at_ann.call ≡ some (caller ben "call-a")
unfolding at_ann run init place_call place_turn place_sdp
at_ann_call = refl

at_ben_call : at_ben.call ≡ some (caller ann "call-b")
unfolding at_ben run init place_call place_turn place_sdp
at_ben_call = refl

glare_agrees_example :
    let c' = handle_offer cfg first_wins 40 ben "call-b" "offer" 20 at_ann in
    let d' = handle_offer cfg first_wins 40 ann "call-a" "offer" 20 at_ben in
    ((c'.call ≡ some (caller ben "call-a"))
      × (c'.status ≡ at_ann.status)
      × (c'.trace ≡ at_ann.trace)
      × AnswersCall "call-a" d'
      × (told d'.trace ≡ send_signal "ann" (accept "call-a") ∷ told at_ben.trace))
    ⊎ ((d'.call ≡ some (caller ann "call-b"))
        × (d'.status ≡ at_ben.status)
        × (d'.trace ≡ at_ben.trace)
        × AnswersCall "call-b" c'
        × (told c'.trace ≡ send_signal "ben" (accept "call-b") ∷ told at_ann.trace))
unfolding at_ann at_ben run init place_call place_turn place_sdp glare_eligible has
glare_agrees_example =
    glare_agrees cfg first_wins 40 20 20 ann ben "offer" "offer" at_ann at_ben (caller ben "call-a")
      (caller ann "call-b") at_ann_call at_ben_call refl refl refl refl refl

offer_when_busy_example :
    let d = handle_offer cfg first_wins 40 zoe "call-z" "offer" 30 at_ann in
    (d.trace
      ≡ write_row (missed_offer zoe "call-z")
        ∷ send_signal "zoe" (hung_up "call-z" busy_elsewhere)
        ∷ at_ann.trace)
unfolding at_ann run init place_call place_turn place_sdp glare_eligible has
offer_when_busy_example =
    (offer_when_busy cfg first_wins 40 zoe "call-z" "offer" 30 at_ann (caller ben "call-a")
      at_ann_call refl).2

finished_call_is_deaf_example :
    handle_call_signal cfg first_wins 90 ben
      (hung_up "call-a" hangup)
      80
      (finish cfg declined none at_ann)
    ≡ finish cfg declined none at_ann
finished_call_is_deaf_example =
    finished_call_is_deaf cfg declined none at_ann (caller ben "call-a") at_ann_call first_wins 90
      ben (hung_up "call-a" hangup) 80 refl

offer_when_free_lem_example :
    let d = handle_offer cfg first_wins 130000 zoe "call-z" "offer" 3 init in
    KeepsCall init d
    × (d.trace ≡ write_row (missed_offer zoe "call-z") ∷ [])
    × (has "call-z" d.recently_ended ≡ true)
unfolding init has cfg configure
offer_when_free_lem_example =
    (offer_when_free_lem cfg first_wins 130000 zoe "call-z" "offer" 3 init refl refl).0
      (ground arith)

hang_up-on_app_locking_example :
    let d = hang_up cfg 50 at_ann in
    let l = on_app_locking 50 at_ann in
    (d.call ≡ none)
    × (d.status ≡ ending)
    × (l.call ≡ none)
    × (l.status ≡ idle)
    × (told l.trace ≡ told d.trace)
    × TellsOnce true (caller ben "call-a") (told at_ann.trace) (told d.trace)
unfolding at_ann run init place_call place_turn place_sdp
hang_up-on_app_locking_example =
    hang_up-on_app_locking cfg 50 at_ann (caller ben "call-a")
      (run-init-IsValid cfg first_wins (calling ben "call-a")) at_ann_call

comes_to_rest_example :
    let d = step cfg first_wins 60 (silence at_ann) at_ann in
    IsPending (silence at_ann) at_ann
    × (d.status ≡ ending)
    × (true ≡ true
        → IsPending (silence d) d × ((step cfg first_wins 60 (silence d) d).status ≡ idle))
unfolding at_ann run init place_call place_turn place_sdp
comes_to_rest_example =
    comes_to_rest cfg first_wins 60 at_ann (run-init-IsValid cfg first_wins (calling ben "call-a"))
      refl

-- The call that Ben's call was captured as, while Zoe's has come since.
abbrev old_task : LockTask
old_task = record {
  call = record (caller ben "call-b") { ref = 5 };
  end_signal = some hangup;
  row = none;
}

lock_drops_newer_call_example :
    let d = lock_teardown old_task at_ann in
    (d.call ≡ none)
    × (d.status ≡ idle)
    × (told d.trace ≡ told at_ann.trace)
    × (d.trace
        ≡ on_state (get_snapshot d)
          ∷ close_engine 5
          ∷ stop_call_audio
          ∷ stop_incoming_ring
          ∷ at_ann.trace)
lock_drops_newer_call_example =
    lock_drops_newer_call old_task at_ann (caller ben "call-a") at_ann_call (λ e. ground arith)
