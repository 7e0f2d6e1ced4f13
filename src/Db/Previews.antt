-- ===== src/Db/Previews.antt =====
-- src/db/repos/messages.ts: `conversationPreviews`, one row for each conversation.
use nuco_messenger.Call.Types.{Direction}
use nuco_messenger.Db.Messages.{Message, MessageKind, Messages, image, in_conversation, is_unread}
use nuco_messenger.Prelude.{
  Bool, List, Option, String, [], false, if◌then◌else◌, leb, ltb, map, none, some, str_eq, ℕ, ◌∷◌,
}
use nuco_messenger.Prelude.Rows.{count_rows, select}

pub record ConversationPreview : Type 0 where
  pub conversation_id : String
  pub body : Option String
  pub sent_at : ℕ
  pub direction : Direction
  pub kind : MessageKind
  pub unread : ℕ

abbrev pub later_row : Message → Option Message → Message
later_row m none = m
later_row m (some n) = if ltb n.sent_at m.sent_at then m else n

-- `ORDER BY sent_at DESC, rowid DESC LIMIT 1`: of equal times the row inserted last.
unfoldable pub latest : String → Messages → Option Message
latest c [] = none
latest c (m ∷ ms) = if in_conversation c m then some (later_row m (latest c ms)) else latest c ms

-- `m.rowid = (SELECT ...)`; a row is known by its id.
unfoldable pub is_latest : Messages → Message → Bool
unfolding latest
is_latest t m = elim (latest m.conversation_id t) [ none ↦ false | some n ↦ str_eq n.id m.id ]

abbrev pub shown_body : MessageKind → Option String → Option String
shown_body image body = none
shown_body _ body = body

unfoldable pub preview_of : Messages → Message → ConversationPreview
unfolding is_unread
preview_of t m = record {
  conversation_id = m.conversation_id;
  body = shown_body m.kind m.body;
  sent_at = m.sent_at;
  direction = m.direction;
  kind = m.kind;
  unread = count_rows (is_unread m.conversation_id) t;
}

-- `ORDER BY sent_at DESC`, equal keys in the order of insertion.
unfoldable pub insert_newest :
    ConversationPreview → List ConversationPreview → List ConversationPreview
insert_newest p [] = p ∷ []
insert_newest p (q ∷ qs) = if leb q.sent_at p.sent_at then p ∷ q ∷ qs else q ∷ insert_newest p qs

unfoldable pub newest_first : List ConversationPreview → List ConversationPreview
unfolding insert_newest
newest_first [] = []
newest_first (p ∷ ps) = insert_newest p (newest_first ps)

unfoldable pub conversation_previews : Messages → List ConversationPreview
unfolding is_latest preview_of newest_first
conversation_previews t = newest_first (map (preview_of t) (select (is_latest t) t))
