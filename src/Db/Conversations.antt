-- ===== src/Db/Conversations.antt =====
-- src/db/repos/conversations.ts: one conversation for each contact, with the pending changes of its
-- retention and screenshot protection and the columns of its chat lock.
use nuco_messenger.Prelude.{
  Bool, List, Option, String, [], false, if◌then◌else◌, none, some, str_eq, true, ℕ, ◌++◌, ◌∷◌,
}
use nuco_messenger.Prelude.Rows.{discard, exists_row, first_row, modify, select}

pub record Conversation : Type 0 where
  pub id : String
  pub contact_id : String
  pub retention_seconds : ℕ
  pub retention_pending : Bool
  pub retention_pending_value : Option ℕ
  pub retention_pending_incoming : Bool
  pub screenshot_protection : Bool
  pub screenshot_pending : Bool
  pub screenshot_pending_value : Option Bool
  pub screenshot_pending_incoming : Bool
  pub lock_enabled : Bool
  pub lock_bio_enabled : Bool
  pub lock_pubkey : Option String
  pub lock_failed_attempts : ℕ
  pub lock_lockout_until : ℕ
  pub muted : Bool
  pub created_at : ℕ

abbrev pub Conversations : Type 0
Conversations = List Conversation

abbrev pub is_conversation : String → Conversation → Bool
is_conversation key r = str_eq r.id key

abbrev pub is_with : String → Conversation → Bool
is_with contact r = str_eq r.contact_id contact

unfoldable pub get_conversation : String → Conversations → Option Conversation
get_conversation key t = first_row (is_conversation key) t

unfoldable pub get_conversation_by_contact : String → Conversations → Option Conversation
get_conversation_by_contact contact t = first_row (is_with contact) t

-- A new conversation, with the columns' defaults.
unfoldable pub new_conversation : String → String → ℕ → ℕ → Conversation
new_conversation key contact seconds_kept now = record {
  id = key;
  contact_id = contact;
  retention_seconds = seconds_kept;
  retention_pending = false;
  retention_pending_value = none;
  retention_pending_incoming = false;
  screenshot_protection = false;
  screenshot_pending = false;
  screenshot_pending_value = none;
  screenshot_pending_incoming = false;
  lock_enabled = false;
  lock_bio_enabled = false;
  lock_pubkey = none;
  lock_failed_attempts = 0;
  lock_lockout_until = 0;
  muted = false;
  created_at = now;
}

-- `INSERT OR IGNORE` on the primary key.
unfoldable pub insert_conversation : Conversation → Conversations → Conversations
insert_conversation r t = if exists_row (is_conversation r.id) t then t else t ++ r ∷ []

abbrev or_new : Option Conversation → Conversation → Conversation
or_new none r = r
or_new (some found) r = found

-- `ensureConversation`.
unfoldable pub ensure_conversation :
    String → String → ℕ → ℕ → Conversations → Conversation × Conversations
unfolding get_conversation_by_contact new_conversation insert_conversation
ensure_conversation key contact seconds_kept now t =
    let fresh_row = new_conversation key contact seconds_kept now in
    let inserted = insert_conversation fresh_row t in
    elim (get_conversation_by_contact contact t) [
      | none ↦ (or_new (get_conversation_by_contact contact inserted) fresh_row, inserted)
      | some existing ↦ (existing, t)
    ]

unfoldable pub delete_conversation : String → Conversations → Conversations
delete_conversation key t = discard (is_conversation key) t

abbrev pub update_conversation :
    String → (Conversation → Conversation) → Conversations → Conversations
update_conversation key f t = modify (is_conversation key) f t

abbrev pub settle_retention : ℕ → Conversation → Conversation
settle_retention kept r = record r {
  retention_seconds = kept;
  retention_pending = false;
  retention_pending_value = none;
  retention_pending_incoming = false;
}

unfoldable pub set_retention : String → ℕ → Conversations → Conversations
set_retention key kept t = update_conversation key (settle_retention kept) t

abbrev pub pend_retention : ℕ → Bool → Conversation → Conversation
pend_retention value from_peer r = record r {
  retention_pending = true;
  retention_pending_value = some value;
  retention_pending_incoming = from_peer;
}

unfoldable pub set_retention_pending : String → ℕ → Bool → Conversations → Conversations
set_retention_pending key value from_peer t =
    update_conversation key (pend_retention value from_peer) t

abbrev pub unpend_retention : Conversation → Conversation
unpend_retention r = record r {
  retention_pending = false;
  retention_pending_value = none;
  retention_pending_incoming = false;
}

unfoldable pub clear_retention_pending : String → Conversations → Conversations
clear_retention_pending key t = update_conversation key unpend_retention t

abbrev pub settle_screenshot : Bool → Conversation → Conversation
settle_screenshot on r = record r {
  screenshot_protection = on;
  screenshot_pending = false;
  screenshot_pending_value = none;
  screenshot_pending_incoming = false;
}

unfoldable pub set_screenshot_protection : String → Bool → Conversations → Conversations
set_screenshot_protection key on t = update_conversation key (settle_screenshot on) t

abbrev pub pend_screenshot : Bool → Bool → Conversation → Conversation
pend_screenshot on from_peer r = record r {
  screenshot_pending = true;
  screenshot_pending_value = some on;
  screenshot_pending_incoming = from_peer;
}

unfoldable pub set_screenshot_pending : String → Bool → Bool → Conversations → Conversations
set_screenshot_pending key on from_peer t = update_conversation key (pend_screenshot on from_peer) t

abbrev pub unpend_screenshot : Conversation → Conversation
unpend_screenshot r = record r {
  screenshot_pending = false;
  screenshot_pending_value = none;
  screenshot_pending_incoming = false;
}

unfoldable pub clear_screenshot_pending : String → Conversations → Conversations
clear_screenshot_pending key t = update_conversation key unpend_screenshot t

unfoldable pub set_conversation_muted : String → Bool → Conversations → Conversations
set_conversation_muted key on t = update_conversation key (λ r. record r { muted = on }) t

abbrev pub with_lock : Bool → Bool → Option String → Conversation → Conversation
with_lock on bio key r = record r {
  lock_enabled = on;
  lock_bio_enabled = bio;
  lock_pubkey = key;
  lock_failed_attempts = 0;
  lock_lockout_until = 0;
}

unfoldable pub set_chat_lock : String → Bool → Bool → Option String → Conversations → Conversations
set_chat_lock c on bio key t = update_conversation c (with_lock on bio key) t

unfoldable pub set_chat_lock_bio : String → Bool → Conversations → Conversations
set_chat_lock_bio c on t = update_conversation c (λ r. record r { lock_bio_enabled = on }) t

abbrev pub with_attempts : ℕ → ℕ → Conversation → Conversation
with_attempts n until r = record r { lock_failed_attempts = n; lock_lockout_until = until }

unfoldable pub set_chat_lock_attempts : String → ℕ → ℕ → Conversations → Conversations
set_chat_lock_attempts c n until t = update_conversation c (with_attempts n until) t

unfoldable pub list_locked_conversations : Conversations → Conversations
list_locked_conversations t = select (λ r. r.lock_enabled) t
