-- ===== src/ChatLock/Passes.antt =====
-- The passes of src/lock/chat-locks.ts over a chat's history, batch by batch.
use nuco_messenger.ChatLock.History.{seal_history, seal_rows}
use nuco_messenger.ChatLock.State.{Ciphers, seal_batch}
use nuco_messenger.Db.Messages.{
  Message, Messages, is_message, is_sealable, list_sealable_plaintext, update_message_body,
  with_body,
}
use nuco_messenger.Prelude.{
  Bool, Bool-cases, Option-cases, String, [], arith, eq_refl, false, inl, inr, is_some, refl, some,
  subst, suc, true, zero, ℕ, ◌&&◌, ◌<◌, ◌∷◌, ◌≡◌, ◌≤◌,
}
use nuco_messenger.Prelude.Batches.{
  Every-weaken, List-cases, batch_empty, count-modify-le, count-modify-lt, sort_by-Every,
  take-Every,
}
use nuco_messenger.Prelude.Rows.{Every, count_rows, exists_row, select, sort_by, take}

-- The row is in the table, and meets the test.
abbrev pub IsDue : (Message → Bool) → Messages → Message → Type 0
IsDue p t m = (p m ≡ true) × (exists_row (λ x. is_message m.id x && p x) t ≡ true)

IsDue-later :
    (p : Message → Bool) (n : Message) (t : Messages) (m : Message)
    → IsDue p t m
    → IsDue p (n ∷ t) m
unfolding exists_row
IsDue-later p n t m h = (h.0, ground (arith, h.1))

select-IsDue : (p : Message → Bool) (t : Messages) → Every (IsDue p t) (select p t)
unfolding select exists_row
select-IsDue p [] = tt
select-IsDue p (m ∷ ms) = elim (Bool-cases (p m)) [
  | inl e ↦
      rw e
        ((e, ground (arith, eq_refl m.id)), Every-weaken (IsDue-later p m ms) _ (select-IsDue p ms))
  | inr e ↦ rw e (Every-weaken (IsDue-later p m ms) _ (select-IsDue p ms))
]

pub batch-IsDue :
    (p : Message → Bool) (n : ℕ) (t : Messages)
    → Every (IsDue p t) (take n (sort_by (λ m. m.sent_at) (select p t)))
batch-IsDue p n t =
    take-Every (IsDue p t) n _ (sort_by-Every (IsDue p t) (λ m. m.sent_at) _ (select-IsDue p t))

sealed_off : (c b s : String) (m : Message) → is_sealable c (with_body b (some s) m) ≡ false
unfolding is_sealable
sealed_off c b s m = ground arith

sealable_body : (c : String) (m : Message) → is_sealable c m ≡ true → is_some m.body ≡ true
unfolding is_sealable
sealable_body c m e = ground arith

nothing_sealable :
    (c : String) (t : Messages)
    → list_sealable_plaintext c seal_batch t ≡ []
    → count_rows (is_sealable c) t ≡ 0
unfolding list_sealable_plaintext
nothing_sealable c t e = batch_empty (is_sealable c) (λ m. m.sent_at) 49 t e

sealable-IsDue :
    (c : String) (t : Messages)
    → Every (IsDue (is_sealable c) t) (list_sealable_plaintext c seal_batch t)
unfolding list_sealable_plaintext
sealable-IsDue c t = batch-IsDue (is_sealable c) seal_batch t

pub no_less : (n : ℕ) → ¬ (n < 0)
no_less n = omega arith

module _ (ciphers : Ciphers) (c pubkey : String) where
  seal_rows-le :
      (ms : Messages) (seed : ℕ) (t : Messages)
      → count_rows (is_sealable c) (seal_rows ciphers c pubkey ms seed t).1
        ≤ count_rows (is_sealable c) t
  unfolding seal_rows update_message_body
  seal_rows-le [] seed t = omega arith
  seal_rows-le (m ∷ ms) seed t = elim (Option-cases m.body) [
    | inl e ↦ rw e (seal_rows-le ms seed t)
    | inr (plain, e) ↦
        let (b, sealing) = ciphers.seal_body seed plain pubkey c m.id in
        let sealed = update_message_body m.id b (some sealing) t in
        rw e (
          omega (
            arith,
            seal_rows-le ms (suc seed) sealed,
            count-modify-le (is_sealable c) (is_message m.id) (with_body b (some sealing))
                (sealed_off c b sealing) t,
          ))
  ]

  seal_rows-lt :
      (m : Message) (ms : Messages) (seed : ℕ) (t : Messages)
      → IsDue (is_sealable c) t m
      → count_rows (is_sealable c) (seal_rows ciphers c pubkey (m ∷ ms) seed t).1
        < count_rows (is_sealable c) t
  unfolding seal_rows update_message_body
  seal_rows-lt m ms seed t due = elim (Option-cases m.body) [
    | inl e ↦ cc (sealable_body c m due.0, e)
    | inr (plain, e) ↦
        let (b, sealing) = ciphers.seal_body seed plain pubkey c m.id in
        let sealed = update_message_body m.id b (some sealing) t in
        rw e (
          omega (
            arith,
            seal_rows-le ms (suc seed) sealed,
            count-modify-lt (is_sealable c) (is_message m.id) (with_body b (some sealing))
                (sealed_off c b sealing) t due.1,
          ))
  ]

  -- Sealing the history of a chat ends, in as many rounds as it has rows to seal at most, and leaves
  -- no row to seal.
  pub seal_history_ends :
      (fuel seed : ℕ) (t : Messages)
      → count_rows (is_sealable c) t < fuel
      → (later : ℕ) × (sealed : Messages) × (seal_history ciphers c pubkey fuel seed t
          ≡ some (later, sealed))
        × (count_rows (is_sealable c) sealed ≡ 0)
  unfolding seal_history
  seal_history_ends zero seed t h = elim (no_less _ h) [ ]
  seal_history_ends (suc fuel) seed t h =
      elim (List-cases (list_sealable_plaintext c seal_batch t)) [
        | inl e ↦ (seed, t, rw (e, seal_history) refl, nothing_sealable c t e)
        | inr (m, ms, e) ↦
            let due =
              subst (Every (IsDue (is_sealable c) t)) e
                (batch-IsDue (is_sealable c) seal_batch t) in
            let (later, sealed) = seal_rows ciphers c pubkey (m ∷ ms) seed t in
            let (last, done, runs, none_left) =
              seal_history_ends fuel later sealed
                (omega (arith, h, seal_rows-lt m ms seed t due.0)) in
            (last, done, rw (e, seal_history) runs, none_left)
      ]
