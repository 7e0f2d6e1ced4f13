-- ===== src/ChatLock/Tests.antt =====
-- A chat with toy ciphers: a seal keeps the text, and only the key "k" opens it.
use nuco_messenger.Call.Types.{incoming}
use nuco_messenger.ChatLock.Custody.{wipe_all_chat_lock_secrets}
use nuco_messenger.ChatLock.Enabling.{enable_chat_lock_lem}
use nuco_messenger.ChatLock.History.{seal_history}
use nuco_messenger.ChatLock.Index.{IsIndexed}
use nuco_messenger.ChatLock.Intact.{seal_history_loses_nothing}
use nuco_messenger.ChatLock.Readings.{readings}
use nuco_messenger.ChatLock.RoundTrip.{disable-enable_chat_lock}
use nuco_messenger.ChatLock.State.{ChatLocks, Ciphers}
use nuco_messenger.ChatLock.Switch.{disable_chat_lock, enable_chat_lock}
use nuco_messenger.ChatLock.Wiping.{acts, enables, relocks, wipe_leaves_nothing}
use nuco_messenger.Db.Conversations.{Conversation, get_conversation, new_conversation}
use nuco_messenger.Db.Integrity.{IsSound}
use nuco_messenger.Db.Messages.{Messages, delivered, is_message, is_sealable, is_sealed_row, text}
use nuco_messenger.Prelude.{
  [], arith, false, if◌then◌else◌, none, refl, some, str_eq, true, ℕ, ◌∷◌, ◌≡◌,
}
use nuco_messenger.Prelude.Keys.{has}
use nuco_messenger.Prelude.Rows.{count_rows, discard, exists_row, first_row}

abbrev toy : Ciphers
toy = record {
  seal_body = λ seed plain pubkey c key. (plain, "meta");
  open_body = λ b sealing priv pubkey c key. if str_eq priv "k" then some b else none;
  wrap_code = λ seed priv code. code;
  unwrap_code = λ wrapped code. if str_eq wrapped code then some "k" else none;
}

unfoldable chat_row : Conversation
unfolding new_conversation
chat_row = new_conversation "ann" "ann" 0 5

unfoldable two_rows : Messages
two_rows =
    record {
      id = "m1";
      conversation_id = "ann";
      direction = incoming;
      kind = text;
      body = some "hi";
      meta = none;
      message_status = delivered;
      sent_at = 1;
      expires_at = none;
      read = false;
      reply_to_id = none;
      media_meta = none;
    }
    ∷ record {
      id = "m2";
      conversation_id = "ann";
      direction = incoming;
      kind = text;
      body = some "text";
      meta = some "meta";
      message_status = delivered;
      sent_at = 2;
      expires_at = none;
      read = false;
      reply_to_id = none;
      media_meta = none;
    }
    ∷ []

unfoldable open_chat : ChatLocks
unfolding chat_row two_rows
open_chat = record {
  released = [];
  bodies = [];
  codes = ("ann", "1234") ∷ [];
  bios = [];
  index = "ann" ∷ [];
  conversations = chat_row ∷ [];
  messages = two_rows;
  seed = 0;
}

open_chat-IsIndexed : IsIndexed open_chat
unfolding open_chat has
open_chat-IsIndexed = record { released_in = tt; codes_in = (refl, tt); bios_in = tt }

wipe_leaves_nothing_example :
    (wipe_all_chat_lock_secrets
      (acts toy (enables "ben" "99" true "k" "p" ∷ relocks "ben" ∷ []) open_chat)).codes
    ≡ []
wipe_leaves_nothing_example =
    (wipe_leaves_nothing toy (enables "ben" "99" true "k" "p" ∷ relocks "ben" ∷ []) open_chat
      open_chat-IsIndexed).1

enable_chat_lock_lem_example :
    count_rows
      (is_sealable "ann")
      (enable_chat_lock toy "ann" "1234" false "k" "p" open_chat).messages
    ≡ 0
unfolding open_chat get_conversation first_row chat_row new_conversation
enable_chat_lock_lem_example =
    (enable_chat_lock_lem toy "ann" "1234" false "k" "p" open_chat chat_row refl).0

two_rows-IsSound : IsSound two_rows
unfolding two_rows exists_row
two_rows-IsSound = ((refl, (refl, tt)), ((λ e. refl), ((λ e. refl), tt)))

seal_history_loses_nothing_example :
    (later : ℕ) × (sealed : Messages) × (seal_history toy "ann" "p" 9 0 two_rows
      ≡ some (later, sealed))
    × (count_rows (is_sealable "ann") sealed ≡ 0)
    × (readings toy "ann" "p" "k" sealed ≡ readings toy "ann" "p" "k" two_rows)
unfolding two_rows count_rows is_sealable
seal_history_loses_nothing_example =
    seal_history_loses_nothing toy "ann" "p" "k" (λ seed plain key. refl) 9 0 two_rows
      (ground arith) two_rows-IsSound.0

abbrev bare_chat : ChatLocks
bare_chat = record open_chat { messages = discard (is_message "m2") two_rows }

disable-enable_chat_lock_example :
    let (done, d) =
      disable_chat_lock toy "ann" (enable_chat_lock toy "ann" "1234" false "k" "p" bare_chat) in
    (done ≡ true)
    × (count_rows (is_sealed_row "ann") d.messages ≡ 0)
    × (readings toy "ann" "p" "k" d.messages ≡ readings toy "ann" "p" "k" bare_chat.messages)
unfolding open_chat get_conversation first_row chat_row new_conversation two_rows discard exists_row
    count_rows is_sealed_row
disable-enable_chat_lock_example =
    disable-enable_chat_lock toy "ann" "p" "k" (λ seed plain key. refl) "1234" false bare_chat
      chat_row refl ((refl, tt), ((λ e. refl), tt)) refl
