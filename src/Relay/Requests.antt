-- ===== src/Relay/Requests.antt =====
-- src/transport/relay.ts: requests and their replies, by the number of the request.
-- `request`, up to its await.
use nuco_messenger.Prelude.{Bool, Option, [], none, some, suc, ℕ, ◌++◌, ◌==◌, ◌∷◌}
use nuco_messenger.Prelude.Rows.{discard, first_row}
use nuco_messenger.Relay.State.{Client, Pending, Purpose, request, send_frame}

unfoldable pub start_request : Purpose → Client → Client
unfolding send_frame
start_request p c =
    let rid = suc c.rid_counter in
    send_frame (request rid p) (record c {
      rid_counter = rid;
      pending = c.pending ++ record { rid = rid; purpose = p } ∷ [];
    })

abbrev pub has_rid : ℕ → Pending → Bool
has_rid n p = p.rid == n

-- The entry that `settleRid` finds and deletes, as the timeout of a request does.
unfoldable pub find_request : ℕ → Client → Option Purpose
find_request n c = elim (first_row (has_rid n) c.pending) [ none ↦ none | some p ↦ some p.purpose ]

unfoldable pub forget_request : ℕ → Client → Client
forget_request n c = record c { pending = discard (has_rid n) c.pending }
