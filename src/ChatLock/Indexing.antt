-- ===== src/ChatLock/Indexing.antt =====
-- The index of the locked chats under the operations of src/lock/chat-locks.ts.
use nuco_messenger.ChatLock.Custody.{
  add_to_index, change_chat_code, count_wrong_code, release, relock_chat, remove_chat_lock_secrets,
  remove_from_index, set_chat_bio, try_code, unlock_chat_with_biometrics, unlock_chat_with_code,
}
use nuco_messenger.ChatLock.History.{Passed, both, finished, fuel_out, threw}
use nuco_messenger.ChatLock.Index.{
  IsIn, IsIndexed, add-Every, delete_item-Every, get_item-IsIn, has-add_self, set_item-Every,
  unindex-Every,
}
use nuco_messenger.ChatLock.State.{ChatLocks, Ciphers, get_item}
use nuco_messenger.ChatLock.Switch.{
  decrypt_body_cached, disable_chat_lock, enable_chat_lock, enable_keys, pubkey_of, seal_pass,
  seal_pending, settle_disabled,
}
use nuco_messenger.Db.Conversations.{Conversation, Conversations, get_conversation}
use nuco_messenger.Prelude.{
  Bool, Option, Option-cases, String, [], arith, false, if_rule, inl, inr, ltb, none, refl, some,
  true, ℕ, ◌∙◌, ◌∷◌, ◌≡◌,
}
use nuco_messenger.Prelude.Keys.{add, has}
use nuco_messenger.Prelude.Rows.{Every}

module _ (ciphers : Ciphers) where
  abbrev pub or_same : ChatLocks → Option ChatLocks → ChatLocks
  or_same s none = s
  or_same s (some changed) = changed

  -- The same keys, items and index.
  abbrev pub SameKeys : ChatLocks → ChatLocks → Type 0
  SameKeys d s =
      (d.released ≡ s.released) × (d.codes ≡ s.codes) × (d.bios ≡ s.bios) × (d.index ≡ s.index)

  pub same-IsIndexed : (d s : ChatLocks) → SameKeys d s → IsIndexed s → IsIndexed d
  same-IsIndexed d s e h = record {
    released_in = rw (e.0, e.3) h.released_in;
    codes_in = rw (e.1, e.3) h.codes_in;
    bios_in = rw (e.2, e.3) h.bios_in;
  }

  pub seal_pass-SameKeys :
      (c pubkey : String) (s : ChatLocks) → SameKeys (seal_pass ciphers c pubkey s) s
  unfolding seal_pass
  seal_pass-SameKeys c pubkey s = ground arith

  pub seal_pending-SameKeys :
      (rs : Conversations) (s : ChatLocks) → SameKeys (seal_pending ciphers rs s) s
  unfolding seal_pending
  seal_pending-SameKeys [] s = (refl, refl, refl, refl)
  seal_pending-SameKeys (r ∷ rs) s = elim (Option-cases r.lock_pubkey) [
    | inl e ↦ rw e (seal_pending-SameKeys rs s)
    | inr (pubkey, e) ↦
        let first = seal_pass-SameKeys r.id pubkey s in
        let (a, b, x, y) = seal_pending-SameKeys rs (seal_pass ciphers r.id pubkey s) in
        rw e (a ∙ first.0, b ∙ first.1, x ∙ first.2, y ∙ first.3)
  ]

  pub remove-IsIndexed :
      (c : String) (s : ChatLocks) → IsIndexed s → IsIndexed (remove_chat_lock_secrets c s)
  unfolding remove_chat_lock_secrets remove_from_index relock_chat
  remove-IsIndexed c s h = record {
    released_in = unindex-Every s.index c s.released h.released_in;
    codes_in = unindex-Every s.index c s.codes h.codes_in;
    bios_in = unindex-Every s.index c s.bios h.bios_in;
  }

  pub enable-IsIndexed :
      (c code : String) (bio : Bool) (priv pubkey : String) (s : ChatLocks)
      → IsIndexed s
      → IsIndexed (enable_chat_lock ciphers c code bio priv pubkey s)
  unfolding enable_chat_lock enable_keys add_to_index
  enable-IsIndexed c code bio priv pubkey s h =
      same-IsIndexed _ (enable_keys ciphers c code bio priv pubkey s)
        (seal_pass-SameKeys c pubkey (enable_keys ciphers c code bio priv pubkey s))
        (record {
          released_in =
              set_item-Every (add c s.index) c priv s.released (has-add_self c s.index)
                (add-Every c s.index s.released h.released_in);
          codes_in =
              set_item-Every (add c s.index) c _ s.codes (has-add_self c s.index)
                (add-Every c s.index s.codes h.codes_in);
          bios_in =
              if_rule (Every (IsIn (add c s.index))) bio
                (set_item-Every (add c s.index) c priv s.bios (has-add_self c s.index)
                  (add-Every c s.index s.bios h.bios_in))
                (add-Every c s.index s.bios h.bios_in);
        })

  pub release-IsIndexed :
      (c priv : String) (s : ChatLocks)
      → has c s.index ≡ true
      → IsIndexed s
      → IsIndexed (release c priv s)
  release-IsIndexed c priv s n h = record {
    released_in = set_item-Every s.index c priv s.released n h.released_in;
    codes_in = h.codes_in;
    bios_in = h.bios_in;
  }

  pub bio-IsIndexed :
      (on : Bool) (c : String) (s : ChatLocks)
      → IsIndexed s
      → IsIndexed (or_same s (set_chat_bio c on s))
  unfolding set_chat_bio
  bio-IsIndexed true c s h = elim (Option-cases (get_item c s.released)) [
    | inl e ↦ rw (e, set_chat_bio, or_same) h
    | inr (priv, e) ↦
        rw (e, set_chat_bio, or_same)
          (record {
            released_in = h.released_in;
            codes_in = h.codes_in;
            bios_in =
                set_item-Every s.index c priv s.bios
                  (get_item-IsIn s.index c priv s.released h.released_in e) h.bios_in;
          })
  ]
  bio-IsIndexed false c s h = record {
    released_in = h.released_in;
    codes_in = h.codes_in;
    bios_in = delete_item-Every s.index c s.bios h.bios_in;
  }

  pub recode-IsIndexed :
      (c code : String) (s : ChatLocks)
      → IsIndexed s
      → IsIndexed (or_same s (change_chat_code ciphers c code s))
  unfolding change_chat_code
  recode-IsIndexed c code s h = elim (Option-cases (get_item c s.released)) [
    | inl e ↦ rw (e, change_chat_code, or_same) h
    | inr (priv, e) ↦
        rw (e, change_chat_code, or_same)
          (record {
            released_in = h.released_in;
            codes_in =
                set_item-Every s.index c _ s.codes
                  (get_item-IsIn s.index c priv s.released h.released_in e) h.codes_in;
            bios_in = h.bios_in;
          })
  ]

  pub unlock_bio-IsIndexed :
      (passed : Bool) (c : String) (s : ChatLocks)
      → IsIndexed s
      → IsIndexed (unlock_chat_with_biometrics passed c s).1
  unfolding unlock_chat_with_biometrics
  unlock_bio-IsIndexed passed c s h = elim (Option-cases (get_item c s.bios)) [
    | inl e ↦ rw (e, unlock_chat_with_biometrics) h
    | inr (priv, e) ↦
        rw (e, unlock_chat_with_biometrics)
          (if_rule (λ (r : Bool × ChatLocks). IsIndexed r.1) passed
            (release-IsIndexed c priv s (get_item-IsIn s.index c priv s.bios h.bios_in e) h) h)
  ]

  pub try_code-IsIndexed :
      (now : ℕ) (code : String) (r : Conversation) (s : ChatLocks)
      → IsIndexed s
      → IsIndexed (try_code ciphers now code r s).1
  unfolding try_code count_wrong_code
  try_code-IsIndexed now code r s h = elim (Option-cases (get_item r.id s.codes)) [
    | inl e ↦ rw (e, try_code) h
    | inr (wrapped, e) ↦ elim (Option-cases (ciphers.unwrap_code wrapped code)) [
      | inl f ↦ rw (e, try_code, f) (same-IsIndexed _ s (refl, refl, refl, refl) h)
      | inr (priv, f) ↦
          rw (e, try_code, f)
            (same-IsIndexed _ (release r.id priv s) (refl, refl, refl, refl)
              (release-IsIndexed r.id priv s
                (get_item-IsIn s.index r.id wrapped s.codes h.codes_in e) h))
    ]
  ]

  pub unlock_code-IsIndexed :
      (now : ℕ) (c code : String) (s : ChatLocks)
      → IsIndexed s
      → IsIndexed (unlock_chat_with_code ciphers now c code s).1
  unfolding unlock_chat_with_code
  unlock_code-IsIndexed now c code s h = elim (Option-cases (get_conversation c s.conversations)) [
    | inl e ↦ rw (e, unlock_chat_with_code) h
    | inr (r, e) ↦
        rw (e, unlock_chat_with_code)
          (if_rule (λ (x : Bool × ChatLocks). IsIndexed x.1) (ltb now r.lock_lockout_until) h
            (try_code-IsIndexed now code r s h))
  ]

  pub settle-IsIndexed :
      (c : String) (p : Passed) (s : ChatLocks)
      → IsIndexed s
      → IsIndexed (settle_disabled ciphers c p s).1
  unfolding settle_disabled
  settle-IsIndexed c fuel_out s h = h
  settle-IsIndexed c (threw t) s h = same-IsIndexed _ s (refl, refl, refl, refl) h
  settle-IsIndexed c (finished t) s h =
      remove-IsIndexed c _ (same-IsIndexed _ s (refl, refl, refl, refl) h)

  pub disable-IsIndexed :
      (c : String) (s : ChatLocks) → IsIndexed s → IsIndexed (disable_chat_lock ciphers c s).1
  unfolding disable_chat_lock
  disable-IsIndexed c s h =
      elim (Option-cases
        (both (get_item c s.released) (pubkey_of ciphers (get_conversation c s.conversations)))) [
          | inl e ↦ rw (e, disable_chat_lock) h
          | inr ((priv, pubkey), e) ↦ rw (e, disable_chat_lock) (settle-IsIndexed c _ s h)
        ]

  pub show-SameKeys :
      (c pubkey key b sealing : String) (s : ChatLocks)
      → SameKeys (decrypt_body_cached ciphers c pubkey key b sealing s).1 s
  unfolding decrypt_body_cached
  show-SameKeys c pubkey key b sealing s = ground arith
