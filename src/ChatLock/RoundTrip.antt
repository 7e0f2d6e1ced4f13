-- ===== src/ChatLock/RoundTrip.antt =====
-- The lock of a chat turned on and off again (src/lock/chat-locks.ts, `enableChatLock` and
-- `disableChatLock`).
use nuco_messenger.ChatLock.Custody.{
  add_to_index, relock_chat, remove_chat_lock_secrets, remove_from_index,
}
use nuco_messenger.ChatLock.Enabling.{enable_chat_lock_lem}
use nuco_messenger.ChatLock.History.{finished, unseal_history}
use nuco_messenger.ChatLock.Intact.{
  IsSealKept, seal_history-IsSealKept, unseal_history_loses_nothing,
}
use nuco_messenger.ChatLock.Passes.{seal_history_ends}
use nuco_messenger.ChatLock.Readings.{Kept, readings}
use nuco_messenger.ChatLock.Ready.{
  DoesNotThrow, IsReady, IsSealReady, seal_history-IsSealReady, unseal_history-DoesNotThrow,
}
use nuco_messenger.ChatLock.State.{ChatLocks, Ciphers, get_item}
use nuco_messenger.ChatLock.Switch.{
  disable_chat_lock, enable_chat_lock, enable_keys, pubkey_of, seal_pass, settle_disabled,
}
use nuco_messenger.Db.Conversations.{Conversation, get_conversation}
use nuco_messenger.Db.Integrity.{IsBodied, IsKeyed, IsSound}
use nuco_messenger.Db.Messages.{Messages, is_sealable, is_sealed_row}
use nuco_messenger.Prelude.{
  Bool, Bool-cases, String, [], ap, arith, inl, inr, refl, some, subst, suc, true, ℕ, ◌<◌, ◌∙◌, ◌∷◌,
  ◌≡◌,
}
use nuco_messenger.Prelude.Batches.{Every-weaken}
use nuco_messenger.Prelude.Rows.{Every, count_rows}

module _ (ciphers : Ciphers) (c pubkey priv : String) where
  unsealed-IsReady :
      (t : Messages)
      → Every IsBodied t
      → count_rows (is_sealed_row c) t ≡ 0
      → Every (IsReady ciphers c pubkey priv) t
  unfolding count_rows
  unsealed-IsReady [] b e = tt
  unsealed-IsReady (m ∷ ms) b e = elim (Bool-cases (is_sealed_row c m)) [
    | inl f ↦ ground (arith, f)
    | inr f ↦ ((b.0, λ d. cc (d, f)), unsealed-IsReady ms b.1 (ground (arith, f)))
  ]

  settled_messages :
      (s : ChatLocks) (left : Messages)
      → let (done, d) = settle_disabled ciphers c (finished left) s in
        (done ≡ true) × (d.messages ≡ left)
  unfolding settle_disabled remove_chat_lock_secrets remove_from_index relock_chat
  settled_messages s left = (refl, refl)

  disable_unlocked :
      (s : ChatLocks)
      → get_item c s.released ≡ some priv
      → pubkey_of ciphers (get_conversation c s.conversations) ≡ some pubkey
      → disable_chat_lock ciphers c s
        ≡ settle_disabled ciphers c
            (unseal_history ciphers c pubkey priv
              (suc (count_rows (is_sealed_row c) s.messages))
              s.messages)
            s
  unfolding disable_chat_lock
  disable_unlocked s e f = rw (disable_chat_lock, e, f) refl

  unseal_history_finishes :
      (fuel : ℕ) (t : Messages)
      → count_rows (is_sealed_row c) t < fuel
      → IsKeyed t
      → Every (IsReady ciphers c pubkey priv) t
      → (left : Messages) × (unseal_history ciphers c pubkey priv fuel t ≡ finished left)
        × (count_rows (is_sealed_row c) left ≡ 0)
        × (readings ciphers c pubkey priv left ≡ readings ciphers c pubkey priv t)
  unseal_history_finishes fuel t lt k h =
      let bodied = Every-weaken {P = IsReady ciphers c pubkey priv} (λ x r. r.0) t h in
      let openable = Every-weaken {P = IsReady ciphers c pubkey priv} (λ x r. r.1) t h in
      let (left, ends, same) =
        unseal_history_loses_nothing ciphers c pubkey priv fuel t lt (k, bodied) in
      elim ends [
        | inl e ↦ absurd (
            subst (DoesNotThrow ciphers c pubkey priv) e
              (unseal_history-DoesNotThrow ciphers c pubkey priv fuel t openable))
        | inr (e, none_left) ↦ (left, e, none_left, same)
      ]

  module _
      (opens : (seed : ℕ) (plain key : String)
        → let (b, s) = ciphers.seal_body seed plain pubkey c key in
          ciphers.open_body b s priv pubkey c key ≡ some plain) where
    seal_pass-Kept-IsReady :
        (s : ChatLocks)
        → IsKeyed s.messages
        → Every (IsReady ciphers c pubkey priv) s.messages
        → let sealed = (seal_pass ciphers c pubkey s).messages in
          Kept ciphers c pubkey priv s.messages sealed
          × Every (IsReady ciphers c pubkey priv) sealed
    unfolding seal_pass
    seal_pass-Kept-IsReady s k h =
        let fuel = suc (count_rows (is_sealable c) s.messages) in
        let (later, sealed, runs, none_left) =
          seal_history_ends ciphers c pubkey fuel s.seed s.messages (omega arith) in
        rw (runs, seal_pass)
          (
            subst (IsSealKept ciphers c pubkey priv s.messages) runs
                (seal_history-IsSealKept ciphers c pubkey priv opens fuel s.seed s.messages k),
            subst (IsSealReady ciphers c pubkey priv) runs
                (seal_history-IsSealReady ciphers c pubkey priv opens fuel s.seed s.messages h),
          )

    enable-Kept-IsReady :
        (code : String) (bio : Bool) (s : ChatLocks)
        → IsKeyed s.messages
        → Every (IsReady ciphers c pubkey priv) s.messages
        → let sealed = (enable_chat_lock ciphers c code bio priv pubkey s).messages in
          Kept ciphers c pubkey priv s.messages sealed
          × Every (IsReady ciphers c pubkey priv) sealed
    unfolding enable_chat_lock enable_keys add_to_index
    enable-Kept-IsReady code bio s k h =
        seal_pass-Kept-IsReady (enable_keys ciphers c code bio priv pubkey s) k h

    -- An existing chat without sealed rows, in a table whose ids are distinct and whose sealed rows
    -- have bodies, has its lock turned on with a key pair that opens what it seals, and off again: the
    -- second does not throw, no row of the chat is sealed, and every row reads as it did at first.
    pub disable-enable_chat_lock :
        (code : String) (bio : Bool) (s : ChatLocks) (r : Conversation)
        → get_conversation c s.conversations ≡ some r
        → IsSound s.messages
        → count_rows (is_sealed_row c) s.messages ≡ 0
        → let (done, d) =
            disable_chat_lock ciphers c (enable_chat_lock ciphers c code bio priv pubkey s) in
          (done ≡ true)
          × (count_rows (is_sealed_row c) d.messages ≡ 0)
          × (readings ciphers c pubkey priv d.messages ≡ readings ciphers c pubkey priv s.messages)
    disable-enable_chat_lock code bio s r found (k, bodied) none_sealed =
        let on = enable_chat_lock ciphers c code bio priv pubkey s in
        let (kept, ready) =
          enable-Kept-IsReady code bio s k (unsealed-IsReady s.messages bodied none_sealed) in
        let (sealed_all, key_out, code_item, bio_item, row) =
          enable_chat_lock_lem ciphers c code bio priv pubkey s r found in
        let (left, ends, none_left, same) =
          unseal_history_finishes (suc (count_rows (is_sealed_row c) on.messages)) on.messages
            (omega arith) kept.1 ready in
        let off =
          disable_unlocked on key_out (ap (pubkey_of ciphers) row)
          ∙ ap (λ p. settle_disabled ciphers c p on) ends in
        let settled = settled_messages on left in
        rw off (
          settled.0,
          ap (count_rows (is_sealed_row c)) settled.1 ∙ none_left,
          ap (readings ciphers c pubkey priv) settled.1 ∙ same ∙ kept.0,
        )
