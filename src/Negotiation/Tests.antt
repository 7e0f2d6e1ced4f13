-- ===== src/Negotiation/Tests.antt =====
-- Two fresh devices.
use nuco_messenger.Db.Conversations.{
  Conversation, get_conversation, get_conversation_by_contact, new_conversation,
}
use nuco_messenger.Negotiation.Agreement.{
  Holds, HoldsPeer, agreed, crossing_retentions_disagree, retention_agrees,
}
use nuco_messenger.Negotiation.Protection.{screenshot_agrees}
use nuco_messenger.Negotiation.Retention.{
  accept_retention, receive_retention_accept, receive_retention_request, request_retention,
}
use nuco_messenger.Negotiation.Screenshot.{accept_screenshot, receive_screenshot_request}
use nuco_messenger.Negotiation.State.{Device, retention_asks, screenshot_accepts}
use nuco_messenger.Prelude.{String, [], refl, true, ℕ, ◌∷◌, ◌≡◌}
use nuco_messenger.Prelude.Rows.{first_row}

unfoldable row_for_peer : String → Conversation
unfolding new_conversation
row_for_peer c = new_conversation c c 86400 5

unfoldable fresh_device : String → Device
unfolding row_for_peer
fresh_device c = record { conversations = row_for_peer c ∷ []; messages = []; outbox = [] }

abbrev tally : ℕ → String
tally n = "n"

ann_row : HoldsPeer "ann" (row_for_peer "ann") (fresh_device "ann")
unfolding fresh_device row_for_peer new_conversation get_conversation get_conversation_by_contact
    first_row
ann_row = (refl, refl)

ben_row : HoldsPeer "ben" (row_for_peer "ben") (fresh_device "ben")
unfolding fresh_device row_for_peer new_conversation get_conversation get_conversation_by_contact
    first_row
ben_row = (refl, refl)

retention_agrees_example :
    (receive_retention_accept tally "ann" "4" 60 9 9
      (request_retention tally "ann" "1" 60 9 (fresh_device "ann"))).outbox
    ≡ retention_asks 60 ∷ []
unfolding row_for_peer new_conversation fresh_device
retention_agrees_example =
    (retention_agrees tally "ann" "ben" (fresh_device "ann") (fresh_device "ben")
      (row_for_peer "ann") (row_for_peer "ben") ann_row ben_row refl 60 9 "1" "2" "3" "4").2

crossing_retentions_disagree_example : Holds "ben" (agreed 30 (row_for_peer "ben")) (
    receive_retention_accept tally "ben" "8" 30 9 9 (
      accept_retention tally "ben" "7" 60 9 (
        receive_retention_request tally "ben" "6" 60 9 9
          (request_retention tally "ben" "5" 30 9 (fresh_device "ben")))))
unfolding row_for_peer new_conversation
crossing_retentions_disagree_example =
    (crossing_retentions_disagree tally "ann" "ben" (fresh_device "ann") (fresh_device "ben")
      (row_for_peer "ann") (row_for_peer "ben") ann_row ben_row refl refl 60 30 9 "1" "2" "3" "4"
      "5" "6" "7" "8").1

screenshot_agrees_example :
    (accept_screenshot "ben" "3" true 9
      (receive_screenshot_request "ben" "2" true 9 9 (fresh_device "ben"))).outbox
    ≡ screenshot_accepts true ∷ []
unfolding row_for_peer new_conversation fresh_device
screenshot_agrees_example =
    (screenshot_agrees "ann" "ben" (fresh_device "ann") (fresh_device "ben") (row_for_peer "ann")
      (row_for_peer "ben") ann_row ben_row refl true 9 "1" "2" "3" "4").3
