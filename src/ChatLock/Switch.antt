-- ===== src/ChatLock/Switch.antt =====
-- src/lock/chat-locks.ts: turning the lock of a chat on and off, and reading its bodies.
use nuco_messenger.ChatLock.Custody.{add_to_index, release, remove_chat_lock_secrets}
use nuco_messenger.ChatLock.History.{
  Passed, both, finished, fuel_out, seal_history, threw, unseal_history,
}
use nuco_messenger.ChatLock.State.{CachedBody, ChatLocks, Ciphers, get_item, set_item}
use nuco_messenger.Db.Conversations.{
  Conversation, Conversations, get_conversation, list_locked_conversations, set_chat_lock,
}
use nuco_messenger.Db.Messages.{delete_conversation_messages, is_sealable, is_sealed_row}
use nuco_messenger.Prelude.{
  Bool, Option, String, [], false, if◌then◌else◌, none, some, str_eq, suc, true, ◌&&◌, ◌∷◌,
}
use nuco_messenger.Prelude.Rows.{count_rows, first_row}

module _ (ciphers : Ciphers) where
  -- The history pass with fuel for every row that it may seal.
  unfoldable pub seal_pass : String → String → ChatLocks → ChatLocks
  seal_pass c pubkey s =
      elim (seal_history ciphers c pubkey (suc (count_rows (is_sealable c) s.messages)) s.seed
        s.messages) [
          | none ↦ s
          | some (later, sealed) ↦ record s { seed = later; messages = sealed }
        ]

  -- What `enableChatLock` does before its history pass: keys first, flags second.
  unfoldable pub enable_keys : String → String → Bool → String → String → ChatLocks → ChatLocks
  unfolding add_to_index
  enable_keys c code bio_on priv pubkey s =
      let stored = record s {
        codes = set_item c (ciphers.wrap_code s.seed priv code) s.codes;
        bios = if bio_on then set_item c priv s.bios else s.bios;
        seed = suc s.seed;
      } in
      let indexed = add_to_index c stored in
      release c priv (record indexed {
        conversations = set_chat_lock c true bio_on (some pubkey) indexed.conversations;
      })

  -- `enableChatLock`; the key pair that it generates is `priv` and `pubkey`.
  unfoldable pub enable_chat_lock : String → String → Bool → String → String → ChatLocks → ChatLocks
  unfolding enable_keys seal_pass
  enable_chat_lock c code bio_on priv pubkey s =
      seal_pass c pubkey (enable_keys c code bio_on priv pubkey s)

  unfoldable pub settle_disabled : String → Passed → ChatLocks → Bool × ChatLocks
  settle_disabled c fuel_out s = (false, s)
  settle_disabled c (threw t) s = (false, record s { messages = t })
  settle_disabled c (finished t) s = (
    true,
    remove_chat_lock_secrets c (record s {
      messages = t;
      conversations = set_chat_lock c false false none s.conversations;
    }),
  )

  abbrev pub pubkey_of : Option Conversation → Option String
  pubkey_of none = none
  pubkey_of (some r) = r.lock_pubkey

  -- `disableChatLock`; the Bool says that it did not throw.
  unfoldable pub disable_chat_lock : String → ChatLocks → Bool × ChatLocks
  unfolding settle_disabled
  disable_chat_lock c s =
      elim (both (get_item c s.released) (pubkey_of (get_conversation c s.conversations))) [
        | none ↦ (false, s)
        | some (priv, pubkey) ↦
            settle_disabled c
              (unseal_history ciphers c pubkey priv (suc (count_rows (is_sealed_row c) s.messages))
                s.messages)
              s
      ]

  -- `removeLockAndDeleteMessages`.
  unfoldable pub remove_lock_and_delete_messages : String → ChatLocks → ChatLocks
  remove_lock_and_delete_messages c s = remove_chat_lock_secrets c (record s {
    messages = delete_conversation_messages c s.messages;
    conversations = set_chat_lock c false false none s.conversations;
  })

  abbrev pub is_cached : String → String → CachedBody → Bool
  is_cached c key e = str_eq e.chat c && str_eq e.message_id key

  -- `openWithReleasedKey`: none where it throws.
  unfoldable pub open_with_released_key :
      String → String → String → String → String → ChatLocks → Option String
  open_with_released_key c pubkey key b sealing s = elim (get_item c s.released) [
    | none ↦ none
    | some priv ↦ ciphers.open_body b sealing priv pubkey c key
  ]

  -- `decryptBodyCached` of a sealed body: none where it throws.
  unfoldable pub decrypt_body_cached :
      String → String → String → String → String → ChatLocks → Option String × ChatLocks
  unfolding open_with_released_key
  decrypt_body_cached c pubkey key b sealing s = elim (first_row (is_cached c key) s.bodies) [
    | some e ↦ (some e.plain, s)
    | none ↦ elim (open_with_released_key c pubkey key b sealing s) [
      | none ↦ (none, s)
      | some plain ↦ (
        some plain,
        record s { bodies = record { chat = c; message_id = key; plain = plain } ∷ s.bodies },
      )
    ]
  ]

  -- `sealPendingForLockedChats`.
  unfoldable pub seal_pending : Conversations → ChatLocks → ChatLocks
  unfolding seal_pass
  seal_pending [] s = s
  seal_pending (r ∷ rs) s = elim r.lock_pubkey [
    | none ↦ seal_pending rs s
    | some pubkey ↦ seal_pending rs (seal_pass r.id pubkey s)
  ]

  unfoldable pub seal_pending_for_locked_chats : ChatLocks → ChatLocks
  unfolding seal_pending
  seal_pending_for_locked_chats s = seal_pending (list_locked_conversations s.conversations) s
