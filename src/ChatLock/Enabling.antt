-- ===== src/ChatLock/Enabling.antt =====
-- The lock of a chat turned on (src/lock/chat-locks.ts, `enableChatLock`).
use nuco_messenger.ChatLock.Custody.{add_to_index}
use nuco_messenger.ChatLock.Passes.{seal_history_ends}
use nuco_messenger.ChatLock.State.{ChatLocks, Ciphers, get_item, set_item}
use nuco_messenger.ChatLock.Switch.{enable_chat_lock, enable_keys, seal_pass}
use nuco_messenger.Db.Conversations.{
  Conversation, Conversations, get_conversation, set_chat_lock, with_lock,
}
use nuco_messenger.Db.Messages.{is_sealable}
use nuco_messenger.Prelude.{
  Bool, Option, String, [], ap, arith, eq_refl, some, suc, true, ◌∙◌, ◌∷◌, ◌≡◌,
}
use nuco_messenger.Prelude.Rows.{count_rows, first_row, modify}

seal_pass-done :
    (ciphers : Ciphers) (c pubkey : String) (s : ChatLocks)
    → count_rows (is_sealable c) (seal_pass ciphers c pubkey s).messages ≡ 0
unfolding seal_pass
seal_pass-done ciphers c pubkey s =
    let (later, sealed, runs, none_left) =
      seal_history_ends ciphers c pubkey (suc (count_rows (is_sealable c) s.messages)) s.seed
        s.messages (omega arith) in
    rw (runs, seal_pass) none_left

seal_pass-keeps :
    (ciphers : Ciphers) (c pubkey : String) (s : ChatLocks)
    → let d = seal_pass ciphers c pubkey s in
      (d.released ≡ s.released)
      × (d.codes ≡ s.codes)
      × (d.bios ≡ s.bios)
      × (d.conversations ≡ s.conversations)
unfolding seal_pass
seal_pass-keeps ciphers c pubkey s = ground arith

found_locked :
    (c : String) (on bio : Bool) (key : Option String) (t : Conversations) (r : Conversation)
    → get_conversation c t ≡ some r
    → get_conversation c (set_chat_lock c on bio key t) ≡ some (with_lock on bio key r)
unfolding get_conversation set_chat_lock first_row modify
found_locked c on bio key [] r e = cc
found_locked c on bio key (q ∷ qs) r e = ground (arith, found_locked c on bio key qs r)

-- After the lock of an existing chat is turned on, no plaintext text or image of the chat is left in
-- the database, the chat is unlocked with the new private key, the code item wraps that key, the
-- biometric item, if asked for, holds it, and the chat's row carries the lock with its public key
-- and no failures.
pub enable_chat_lock_lem :
    (ciphers : Ciphers) (c code : String) (bio : Bool) (priv pubkey : String) (s : ChatLocks)
    (r : Conversation)
    → get_conversation c s.conversations ≡ some r
    → let d = enable_chat_lock ciphers c code bio priv pubkey s in
      (count_rows (is_sealable c) d.messages ≡ 0)
      × (get_item c d.released ≡ some priv)
      × (get_item c d.codes ≡ some (ciphers.wrap_code s.seed priv code))
      × (bio ≡ true → get_item c d.bios ≡ some priv)
      × (get_conversation c d.conversations
          ≡ some (record r {
            lock_enabled = true;
            lock_bio_enabled = bio;
            lock_pubkey = some pubkey;
            lock_failed_attempts = 0;
            lock_lockout_until = 0;
          }))
unfolding enable_chat_lock enable_keys add_to_index set_item get_item
enable_chat_lock_lem ciphers c code bio priv pubkey s r e =
    let keys = enable_keys ciphers c code bio priv pubkey s in
    let kept = seal_pass-keeps ciphers c pubkey keys in
    (
      seal_pass-done ciphers c pubkey keys,
      ap (get_item c) kept.0 ∙ ground (arith, eq_refl c),
      ap (get_item c) kept.1 ∙ ground (arith, eq_refl c),
      λ b. ap (get_item c) kept.2 ∙ ground (arith, eq_refl c),
      ap (get_conversation c) kept.3 ∙ found_locked c true bio (some pubkey) s.conversations r e,
    )
