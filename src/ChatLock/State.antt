-- ===== src/ChatLock/State.antt =====
-- src/lock/chat-locks.ts: what the chat locks keep in memory, in the keystore and in the database.
--
-- A private key is a text here. The ciphers of src/crypto/chat-lock.ts, over third-party curves and
-- AES, stand behind the record Ciphers, and the keystore's items are maps from conversation ids.
use nuco_messenger.Db.Conversations.{Conversations}
use nuco_messenger.Db.Messages.{Messages}
use nuco_messenger.Prelude.{List, Option, String, [], if◌then◌else◌, none, some, str_eq, ℕ, ◌∷◌}

-- What src/crypto/chat-lock.ts offers. `open_body` and `unwrap_code` give none where the source throws.
-- A seal draws a fresh key pair and nonce, and a wrap a fresh salt, so they take a seed.
pub record Ciphers : Type 0 where
  pub seal_body : ℕ → String → String → String → String → String × String
  pub open_body : String → String → String → String → String → String → Option String
  pub wrap_code : ℕ → String → String → String
  pub unwrap_code : String → String → Option String

abbrev pub Items : Type 0
Items = List (String × String)

unfoldable pub get_item : String → Items → Option String
get_item c [] = none
get_item c ((d, v) ∷ rest) = if str_eq d c then some v else get_item c rest

unfoldable pub delete_item : String → Items → Items
delete_item c [] = []
delete_item c ((d, v) ∷ rest) =
    if str_eq d c then delete_item c rest else (d, v) ∷ delete_item c rest

unfoldable pub set_item : String → String → Items → Items
unfolding delete_item
set_item c v items = (c, v) ∷ delete_item c items

-- An entry of `bodyCache`.
pub record CachedBody : Type 0 where
  pub chat : String
  pub message_id : String
  pub plain : String

-- `releasedKeys`, `bodyCache`, the keystore's code and biometric items and its index, and the two tables.
pub record ChatLocks : Type 0 where
  pub released : Items
  pub bodies : List CachedBody
  pub codes : Items
  pub bios : Items
  pub index : List String
  pub conversations : Conversations
  pub messages : Messages
  pub seed : ℕ

abbrev pub seal_batch : ℕ
seal_batch = 50

abbrev pub chat_max_attempts : ℕ
chat_max_attempts = 5

abbrev pub chat_lockout_ms : ℕ
chat_lockout_ms = 300000
