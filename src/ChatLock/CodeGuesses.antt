-- ===== src/ChatLock/CodeGuesses.antt =====
-- How fast the code of a chat can be guessed, against its persisted lockout.
use nuco_messenger.ChatLock.Custody.{unlock_chat_with_code}
use nuco_messenger.ChatLock.State.{ChatLocks, Ciphers, chat_lockout_ms, chat_max_attempts, get_item}
use nuco_messenger.Db.Conversations.{Conversation, Conversations, get_conversation, with_attempts}
use nuco_messenger.Prelude.{
  List, String, [], if◌then◌else◌, leb, ltb, none, some, ℕ, ◌*◌, ◌+◌, ◌<◌, ◌∷◌, ◌≡◌, ◌≤◌, ◌⊎◌,
}

-- What a wrong code writes to the chat's row.
abbrev pub after_wrong_code : ℕ → Conversation → Conversation
after_wrong_code now r =
    if ltb now r.lock_lockout_until
    then r
    else if leb chat_max_attempts (r.lock_failed_attempts + 1)
    then with_attempts 0 (now + chat_lockout_ms) r
    else with_attempts (r.lock_failed_attempts + 1) 0 r

-- `tested` counts the codes that were checked at all.
pub record CodeSiege : Type 0 where
  pub clock : ℕ
  pub tested : ℕ
  pub locks : ChatLocks

module _ (ciphers : Ciphers) (c wrapped : String) where
  -- The chat has this row, and this is its wrapped key.
  abbrev Guards : Conversation → ChatLocks → Type 0
  Guards r s = (get_conversation c s.conversations ≡ some r) × (get_item c s.codes ≡ some wrapped)

  abbrev pub guess_at : ℕ → String → ℕ → ChatLocks → CodeSiege
  guess_at now code tested s = record {
    clock = now;
    tested = tested + (elim (get_conversation c s.conversations) [
      | none ↦ 0
      | some r ↦ if ltb now r.lock_lockout_until then 0 else 1
    ]);
    locks = (unlock_chat_with_code ciphers now c code s).1;
  }

  -- Each guess comes some time after the one before.
  unfoldable pub besiege_chat : List (ℕ × String) → CodeSiege → CodeSiege
  besiege_chat [] s = s
  besiege_chat ((wait, code) ∷ rest) s =
      besiege_chat rest (guess_at (s.clock + wait) code s.tested s.locks)

  record IsWithin (start : ℕ) (s : CodeSiege) (r : Conversation) (blocks : ℕ) : Type 0 where
    guards : Guards r s.locks
    few : r.lock_failed_attempts < chat_max_attempts
    counted : s.tested ≡ chat_max_attempts * blocks + r.lock_failed_attempts
    spaced :
        (blocks ≡ 0)
        ⊎ (start + blocks * chat_lockout_ms ≤ s.clock)
        ⊎ (start + blocks * chat_lockout_ms ≤ r.lock_lockout_until)
    near : (blocks ≡ 0) ⊎ (r.lock_lockout_until ≤ s.clock + chat_lockout_ms)
    later : start ≤ s.clock

  -- The guess does not unwrap the key.
  abbrev IsWrong : ℕ × String → Type 0
  IsWrong g = ciphers.unwrap_code wrapped g.1 ≡ none
