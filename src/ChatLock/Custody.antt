-- ===== src/ChatLock/Custody.antt =====
-- src/lock/chat-locks.ts: the keys of a chat, in memory and in the keystore.
use nuco_messenger.ChatLock.State.{
  CachedBody, ChatLocks, Ciphers, Items, chat_lockout_ms, chat_max_attempts, delete_item, get_item,
  set_item,
}
use nuco_messenger.Db.Conversations.{
  Conversation, get_conversation, set_chat_lock_attempts, set_chat_lock_bio,
}
use nuco_messenger.Prelude.{
  Bool, List, Option, String, [], false, if◌then◌else◌, is_some, leb, ltb, none, some, str_eq, suc,
  true, ℕ, ◌+◌, ◌∷◌,
}
use nuco_messenger.Prelude.Keys.{add, delete}
use nuco_messenger.Prelude.Rows.{discard}

unfoldable pub is_chat_unlocked : String → ChatLocks → Bool
is_chat_unlocked c s = is_some (get_item c s.released)

abbrev pub is_cached_for : String → CachedBody → Bool
is_cached_for c e = str_eq e.chat c

unfoldable pub relock_chat : String → ChatLocks → ChatLocks
relock_chat c s = record s {
  released = delete_item c s.released;
  bodies = discard (is_cached_for c) s.bodies;
}

unfoldable pub clear_all_released : ChatLocks → ChatLocks
clear_all_released s = record s { released = []; bodies = [] }

abbrev pub release : String → String → ChatLocks → ChatLocks
release c priv s = record s { released = set_item c priv s.released }

-- `addToIndex`, `removeFromIndex`.
unfoldable pub add_to_index : String → ChatLocks → ChatLocks
add_to_index c s = record s { index = add c s.index }

unfoldable pub remove_from_index : String → ChatLocks → ChatLocks
remove_from_index c s = record s { index = delete c s.index }

unfoldable pub remove_chat_lock_secrets : String → ChatLocks → ChatLocks
unfolding remove_from_index relock_chat
remove_chat_lock_secrets c s =
    relock_chat c (
      remove_from_index c (record s { bios = delete_item c s.bios; codes = delete_item c s.codes }))

unfoldable pub delete_items : List String → Items → Items
delete_items [] items = items
delete_items (c ∷ cs) items = delete_items cs (delete_item c items)

unfoldable pub wipe_all_chat_lock_secrets : ChatLocks → ChatLocks
unfolding delete_items clear_all_released
wipe_all_chat_lock_secrets s = clear_all_released (record s {
  bios = delete_items s.index s.bios;
  codes = delete_items s.index s.codes;
  index = [];
})

-- `setChatBio`: none where it throws.
unfoldable pub set_chat_bio : String → Bool → ChatLocks → Option ChatLocks
set_chat_bio c true s = elim (get_item c s.released) [
  | none ↦ none
  | some priv ↦ some (record s {
    bios = set_item c priv s.bios;
    conversations = set_chat_lock_bio c true s.conversations;
  })
]
set_chat_bio c false s = some (record s {
  bios = delete_item c s.bios;
  conversations = set_chat_lock_bio c false s.conversations;
})

-- `unlockChatWithBiometrics`; the Bool says that the prompt was passed.
unfoldable pub unlock_chat_with_biometrics : Bool → String → ChatLocks → Bool × ChatLocks
unlock_chat_with_biometrics passed c s = elim (get_item c s.bios) [
  | none ↦ (false, s)
  | some priv ↦ if passed then (true, release c priv s) else (false, s)
]

module _ (ciphers : Ciphers) where
  -- `changeChatCode`: none where it throws.
  unfoldable pub change_chat_code : String → String → ChatLocks → Option ChatLocks
  change_chat_code c code s = elim (get_item c s.released) [
    | none ↦ none
    | some priv ↦ some (record s {
      codes = set_item c (ciphers.wrap_code s.seed priv code) s.codes;
      seed = suc s.seed;
    })
  ]

  -- A code that did not unwrap the key.
  unfoldable pub count_wrong_code : ℕ → Conversation → ChatLocks → ChatLocks
  count_wrong_code now r s =
      let attempts = r.lock_failed_attempts + 1 in
      record s {
        conversations =
            if leb chat_max_attempts attempts
            then set_chat_lock_attempts r.id 0 (now + chat_lockout_ms) s.conversations
            else set_chat_lock_attempts r.id attempts 0 s.conversations;
      }

  unfoldable pub try_code : ℕ → String → Conversation → ChatLocks → Bool × ChatLocks
  unfolding count_wrong_code
  try_code now code r s = elim (get_item r.id s.codes) [
    | none ↦ (false, s)
    | some wrapped ↦ elim (ciphers.unwrap_code wrapped code) [
      | none ↦ (false, count_wrong_code now r s)
      | some priv ↦ (
        true,
        record (release r.id priv s) {
          conversations = set_chat_lock_attempts r.id 0 0 s.conversations;
        },
      )
    ]
  ]

  -- `unlockChatWithCode`.
  unfoldable pub unlock_chat_with_code : ℕ → String → String → ChatLocks → Bool × ChatLocks
  unfolding try_code
  unlock_chat_with_code now c code s = elim (get_conversation c s.conversations) [
    | none ↦ (false, s)
    | some r ↦ if ltb now r.lock_lockout_until then (false, s) else try_code now code r s
  ]
