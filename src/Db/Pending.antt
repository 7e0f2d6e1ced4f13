-- ===== src/Db/Pending.antt =====
-- src/db/repos/messages.ts: the outgoing messages that an app kill interrupted.
use nuco_messenger.Call.Types.{Direction, outgoing}
use nuco_messenger.Db.Messages.{
  Message, MessageStatus, Messages, in_conversation, is_content, sending,
}
use nuco_messenger.Prelude.{
  Bool, List, Option, String, [], false, is_some, none, not, some, true, ◌&&◌, ◌∷◌,
}
use nuco_messenger.Prelude.Rows.{select, sort_by}

pub record PendingOutbound : Type 0 where
  pub message : Message
  pub handle : String

-- The rows whose contact has a handle; `handle_of` is the join with the contacts table.
unfoldable pub join_handles : (String → Option String) → Messages → List PendingOutbound
join_handles handle_of [] = []
join_handles handle_of (m ∷ ms) = elim (handle_of m.conversation_id) [
  | none ↦ join_handles handle_of ms
  | some h ↦ record { message = m; handle = h } ∷ join_handles handle_of ms
]

abbrev pub is_outbound_sending : Direction → MessageStatus → Bool
is_outbound_sending outgoing sending = true
is_outbound_sending _ _ = false

unfoldable pub is_pending : Message → Bool
is_pending m =
    is_outbound_sending m.direction m.message_status && is_content m.kind && is_some m.body

unfoldable pub is_pending_plain : Message → Bool
unfolding is_pending
is_pending_plain m = is_pending m && not (is_some m.meta)

unfoldable pub is_pending_sealed : String → Message → Bool
unfolding is_pending
is_pending_sealed c m = in_conversation c m && is_pending m && is_some m.meta

unfoldable pub list_pending_outbound : (String → Option String) → Messages → List PendingOutbound
unfolding is_pending_plain join_handles
list_pending_outbound handle_of t =
    join_handles handle_of (sort_by (λ m. m.sent_at) (select is_pending_plain t))

unfoldable pub list_pending_outbound_sealed :
    (String → Option String) → String → Messages → List PendingOutbound
unfolding is_pending_sealed join_handles
list_pending_outbound_sealed handle_of c t =
    join_handles handle_of (sort_by (λ m. m.sent_at) (select (is_pending_sealed c) t))
