-- ===== src/ChatLock/Wiping.antt =====
-- The keys of a chat under the wipes of src/lock/chat-locks.ts.
use nuco_messenger.ChatLock.Custody.{
  change_chat_code, clear_all_released, relock_chat, remove_chat_lock_secrets, set_chat_bio,
  unlock_chat_with_biometrics, unlock_chat_with_code, wipe_all_chat_lock_secrets,
}
use nuco_messenger.ChatLock.Index.{IsIndexed, delete_item-Every, delete_items-none}
use nuco_messenger.ChatLock.Indexing.{
  bio-IsIndexed, disable-IsIndexed, enable-IsIndexed, or_same, recode-IsIndexed, remove-IsIndexed,
  same-IsIndexed, seal_pending-SameKeys, show-SameKeys, unlock_bio-IsIndexed, unlock_code-IsIndexed,
}
use nuco_messenger.ChatLock.State.{ChatLocks, Ciphers}
use nuco_messenger.ChatLock.Switch.{
  decrypt_body_cached, disable_chat_lock, enable_chat_lock, remove_lock_and_delete_messages,
  seal_pending_for_locked_chats,
}
use nuco_messenger.Db.Conversations.{list_locked_conversations}
use nuco_messenger.Prelude.{Bool, List, String, [], refl, ℕ, ◌∷◌, ◌≡◌}

module _ (ciphers : Ciphers) where
  -- One call of the module.
  pub data Act : Type 0 where
    enables : String → String → Bool → String → String → Act
    disables forgets relocks removes : String → Act
    recodes : String → String → Act
    sets_bio : String → Bool → Act
    unlocks_bio : Bool → String → Act
    unlocks_code : ℕ → String → String → Act
    shows : String → String → String → String → String → Act
    reseals locks_app : Act

  unfoldable pub act : Act → ChatLocks → ChatLocks
  act (enables c code bio priv pubkey) s = enable_chat_lock ciphers c code bio priv pubkey s
  act (disables c) s = (disable_chat_lock ciphers c s).1
  act (forgets c) s = remove_lock_and_delete_messages ciphers c s
  act (relocks c) s = relock_chat c s
  act (removes c) s = remove_chat_lock_secrets c s
  act (recodes c code) s = or_same ciphers s (change_chat_code ciphers c code s)
  act (sets_bio c on) s = or_same ciphers s (set_chat_bio c on s)
  act (unlocks_bio passed c) s = (unlock_chat_with_biometrics passed c s).1
  act (unlocks_code now c code) s = (unlock_chat_with_code ciphers now c code s).1
  act (shows c pubkey key b sealing) s = (decrypt_body_cached ciphers c pubkey key b sealing s).1
  act reseals s = seal_pending_for_locked_chats ciphers s
  act locks_app s = clear_all_released s

  unfoldable pub acts : List Act → ChatLocks → ChatLocks
  unfolding act
  acts [] s = s
  acts (a ∷ rest) s = acts rest (act a s)

  act-IsIndexed : (a : Act) (s : ChatLocks) → IsIndexed s → IsIndexed (act a s)
  unfolding act remove_lock_and_delete_messages relock_chat clear_all_released
      seal_pending_for_locked_chats
  act-IsIndexed (enables c code bio priv pubkey) s h =
      enable-IsIndexed ciphers c code bio priv pubkey s h
  act-IsIndexed (disables c) s h = disable-IsIndexed ciphers c s h
  act-IsIndexed (forgets c) s h =
      remove-IsIndexed ciphers c _ (same-IsIndexed ciphers _ s (refl, refl, refl, refl) h)
  act-IsIndexed (relocks c) s h = record {
    released_in = delete_item-Every s.index c s.released h.released_in;
    codes_in = h.codes_in;
    bios_in = h.bios_in;
  }
  act-IsIndexed (removes c) s h = remove-IsIndexed ciphers c s h
  act-IsIndexed (recodes c code) s h = recode-IsIndexed ciphers c code s h
  act-IsIndexed (sets_bio c on) s h = bio-IsIndexed ciphers on c s h
  act-IsIndexed (unlocks_bio passed c) s h = unlock_bio-IsIndexed ciphers passed c s h
  act-IsIndexed (unlocks_code now c code) s h = unlock_code-IsIndexed ciphers now c code s h
  act-IsIndexed (shows c pubkey key b sealing) s h =
      same-IsIndexed ciphers _ s (show-SameKeys ciphers c pubkey key b sealing s) h
  act-IsIndexed reseals s h =
      same-IsIndexed ciphers _ s
        (seal_pending-SameKeys ciphers (list_locked_conversations s.conversations) s) h
  act-IsIndexed locks_app s h = record {
    released_in = tt;
    codes_in = h.codes_in;
    bios_in = h.bios_in;
  }

  acts-IsIndexed : (es : List Act) (s : ChatLocks) → IsIndexed s → IsIndexed (acts es s)
  unfolding acts
  acts-IsIndexed [] s h = h
  acts-IsIndexed (a ∷ rest) s h = acts-IsIndexed rest (act a s) (act-IsIndexed a s h)

  -- After every history of the module's operations, from a state whose keys and items are indexed, they
  -- still are; and so a wipe, which walks the index, leaves no code item and no biometric item of any
  -- chat in the keystore, no key and no opened body in memory, and an empty index.
  pub wipe_leaves_nothing :
      (es : List Act) (s : ChatLocks)
      → IsIndexed s
      → let d = acts es s in
        let w = wipe_all_chat_lock_secrets d in
        IsIndexed d
        × (w.codes ≡ [])
        × (w.bios ≡ [])
        × (w.released ≡ [])
        × (w.bodies ≡ [])
        × (w.index ≡ [])
  unfolding wipe_all_chat_lock_secrets clear_all_released
  wipe_leaves_nothing es s h =
      let kept = acts-IsIndexed es s h in
      (
        kept,
        delete_items-none (acts es s).index (acts es s).codes kept.codes_in,
        delete_items-none (acts es s).index (acts es s).bios kept.bios_in,
        refl,
        refl,
        refl,
      )
