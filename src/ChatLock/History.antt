-- ===== src/ChatLock/History.antt =====
-- src/lock/chat-locks.ts: the passes that seal and unseal the history of a chat.
use nuco_messenger.ChatLock.State.{Ciphers, seal_batch}
use nuco_messenger.Db.Messages.{
  Messages, list_sealable_plaintext, list_sealed_rows, update_message_body,
}
use nuco_messenger.Prelude.{Bool, Option, String, [], false, none, some, suc, true, zero, ℕ, ◌∷◌}

abbrev pub both : Option String → Option String → Option (String × String)
both (some a) (some b) = some (a, b)
both _ _ = none

-- How a pass over a history ends: it threw, with what it had done by then, or it ran to its end.
pub data Passed : Type 0 where
  fuel_out : Passed
  threw finished : Messages → Passed

unfoldable pub go_on : (Messages → Passed) → Bool × Messages → Passed
go_on rest (true, t) = rest t
go_on rest (false, t) = threw t

module _ (ciphers : Ciphers) (c pubkey : String) where
  -- The inner loop of `sealHistory`.
  unfoldable pub seal_rows : Messages → ℕ → Messages → ℕ × Messages
  unfolding update_message_body
  seal_rows [] seed t = (seed, t)
  seal_rows (m ∷ ms) seed t = elim m.body [
    | none ↦ seal_rows ms seed t
    | some plain ↦
        let (sealed_body, sealing) = ciphers.seal_body seed plain pubkey c m.id in
        seal_rows ms (suc seed) (update_message_body m.id sealed_body (some sealing) t)
  ]

  -- `sealHistory`: none when the fuel runs out.
  unfoldable pub seal_history : ℕ → ℕ → Messages → Option (ℕ × Messages)
  unfolding seal_rows list_sealable_plaintext
  seal_history zero seed t = none
  seal_history (suc fuel) seed t = elim (list_sealable_plaintext c seal_batch t) [
    | [] ↦ some (seed, t)
    | m ∷ ms ↦ let (later, sealed) = seal_rows (m ∷ ms) seed t in seal_history fuel later sealed
  ]

  -- The inner loop of `unsealHistory`. The Bool says that it did not throw.
  unfoldable pub unseal_rows : String → Messages → Messages → Bool × Messages
  unfolding update_message_body
  unseal_rows priv [] t = (true, t)
  unseal_rows priv (m ∷ ms) t = elim (both m.body m.meta) [
    | none ↦ unseal_rows priv ms t
    | some (b, sealing) ↦ elim (ciphers.open_body b sealing priv pubkey c m.id) [
      | none ↦ (false, t)
      | some plain ↦ unseal_rows priv ms (update_message_body m.id plain none t)
    ]
  ]

  -- `unsealHistory`.
  unfoldable pub unseal_history : String → ℕ → Messages → Passed
  unfolding unseal_rows list_sealed_rows go_on
  unseal_history priv zero t = fuel_out
  unseal_history priv (suc fuel) t = elim (list_sealed_rows c seal_batch t) [
    | [] ↦ finished t
    | m ∷ ms ↦ go_on (unseal_history priv fuel) (unseal_rows priv (m ∷ ms) t)
  ]
