-- ===== src/ChatLock/Intact.antt =====
-- What the rows of a chat read before and after the passes of src/lock/chat-locks.ts.
use nuco_messenger.ChatLock.History.{
  Passed, both, finished, fuel_out, go_on, seal_history, seal_rows, threw, unseal_history,
  unseal_rows,
}
use nuco_messenger.ChatLock.Passes.{IsDue, batch-IsDue, seal_history_ends}
use nuco_messenger.ChatLock.Readings.{
  Kept, ReadsAs, ReadsAs-all, keyed-ReadsAs, new_body-KeepsReading, reading, readings,
  readings-update_message_body, seal_rows-Kept, update_message_body-IsKeyed,
}
use nuco_messenger.ChatLock.State.{Ciphers, seal_batch}
use nuco_messenger.ChatLock.Unsealing.{unseal_history_ends}
use nuco_messenger.Db.Integrity.{IsKeyed, IsSound}
use nuco_messenger.Db.Messages.{
  Message, Messages, is_sealable, is_sealed_row, list_sealable_plaintext, list_sealed_rows,
  update_message_body, with_body,
}
use nuco_messenger.Prelude.{
  Bool, Option, Option-cases, String, [], false, inl, inr, none, refl, some, subst, suc, true, zero,
  ℕ, ◌<◌, ◌∙◌, ◌∷◌, ◌≡◌, ◌⊎◌,
}
use nuco_messenger.Prelude.Batches.{
  Every-weaken, List-cases, select-Every, sort_by-Every, take-Every,
}
use nuco_messenger.Prelude.Rows.{Every, count_rows, select, sort_by, take}

module _ (ciphers : Ciphers) (c pubkey priv : String) where
  -- Every row of a batch reads as the rows with its id.
  batch-ReadsAs :
      (p : Message → Bool) (t : Messages)
      → IsKeyed t
      → Every
          (ReadsAs ciphers c pubkey priv t)
          (take seal_batch (sort_by (λ m. m.sent_at) (select p t)))
  batch-ReadsAs p t k = take-Every _ seal_batch _ (
      sort_by-Every _ (λ m. m.sent_at) _
        (select-Every _ p t (keyed-ReadsAs ciphers c pubkey priv t k)))

  -- The rows still read the same, if the pass came to an end.
  abbrev pub IsSealKept : Messages → Option (ℕ × Messages) → Type 0
  IsSealKept t none = Unit {0}
  IsSealKept t (some (later, sealed)) = Kept ciphers c pubkey priv t sealed

  IsSealKept-trans :
      (t u : Messages) (o : Option (ℕ × Messages))
      → readings ciphers c pubkey priv u ≡ readings ciphers c pubkey priv t
      → IsSealKept u o
      → IsSealKept t o
  IsSealKept-trans t u none e h = tt
  IsSealKept-trans t u (some (later, sealed)) e h = (h.0 ∙ e, h.1)

  module _
      (opens : (seed : ℕ) (plain key : String)
        → let (b, s) = ciphers.seal_body seed plain pubkey c key in
          ciphers.open_body b s priv pubkey c key ≡ some plain) where
    pub seal_history-IsSealKept :
        (fuel seed : ℕ) (t : Messages)
        → IsKeyed t
        → IsSealKept t (seal_history ciphers c pubkey fuel seed t)
    unfolding seal_history list_sealable_plaintext
    seal_history-IsSealKept zero seed t k = tt
    seal_history-IsSealKept (suc fuel) seed t k =
        elim (List-cases (list_sealable_plaintext c seal_batch t)) [
          | inl e ↦ rw (e, seal_history) (refl, k)
          | inr (m, ms, e) ↦
              let due =
                subst (Every (IsDue (is_sealable c) t)) e
                  (batch-IsDue (is_sealable c) seal_batch t) in
              let same =
                subst (Every (ReadsAs ciphers c pubkey priv t)) e
                  (batch-ReadsAs (is_sealable c) t k) in
              let round =
                seal_rows-Kept ciphers c pubkey priv opens (m ∷ ms) seed t
                  (Every-weaken {P = IsDue (is_sealable c) t} (λ x h. h.0) (m ∷ ms) due) same k in
              let (later, sealed) = seal_rows ciphers c pubkey (m ∷ ms) seed t in
              rw (e, seal_history)
                (IsSealKept-trans t sealed (seal_history ciphers c pubkey fuel later sealed) round.0
                  (seal_history-IsSealKept fuel later sealed round.1))
        ]

    -- For ciphers that open what they sealed for the chat, sealing its history ends and leaves no row
    -- to seal, and every row still reads as it did before, in a table whose ids are distinct.
    pub seal_history_loses_nothing :
        (fuel seed : ℕ) (t : Messages)
        → count_rows (is_sealable c) t < fuel
        → IsKeyed t
        → (later : ℕ) × (sealed : Messages) × (seal_history ciphers c pubkey fuel seed t
            ≡ some (later, sealed))
          × (count_rows (is_sealable c) sealed ≡ 0)
          × (readings ciphers c pubkey priv sealed ≡ readings ciphers c pubkey priv t)
    seal_history_loses_nothing fuel seed t lt k =
        let (later, sealed, runs, none_left) = seal_history_ends ciphers c pubkey fuel seed t lt in
        (
          later,
          sealed,
          runs,
          none_left,
          (subst (IsSealKept t) runs (seal_history-IsSealKept fuel seed t k)).0,
        )

  opened_reading :
      (m : Message) (b s plain : String)
      → both m.body m.meta ≡ some (b, s)
      → ciphers.open_body b s priv pubkey c m.id ≡ some plain
      → reading ciphers c pubkey priv m ≡ some plain
  unfolding reading
  opened_reading m b s plain e f = rw (e, reading) f

  bare_reading :
      (x : Message) (plain : String)
      → reading ciphers c pubkey priv (with_body plain none x) ≡ some plain
  unfolding reading
  bare_reading x plain = refl

  unseal_rows-Kept :
      (ms : Messages) (t : Messages)
      → Every (ReadsAs ciphers c pubkey priv t) ms
      → IsKeyed t
      → Kept ciphers c pubkey priv t (unseal_rows ciphers c pubkey priv ms t).1
  unfolding unseal_rows
  unseal_rows-Kept [] t h k = (refl, k)
  unseal_rows-Kept (m ∷ ms) t h k = elim (Option-cases (both m.body m.meta)) [
    | inl e ↦ rw (e, unseal_rows) (unseal_rows-Kept ms t h.1 k)
    | inr ((b, s), e) ↦ elim (Option-cases (ciphers.open_body b s priv pubkey c m.id)) [
      | inl f ↦ rw (e, unseal_rows, f) (refl, k)
      | inr (plain, f) ↦
          let keeps =
            new_body-KeepsReading ciphers c pubkey priv m plain plain none t
              (opened_reading m b s plain e f) (λ x i. bare_reading x plain) h.0 in
          let rest =
            unseal_rows-Kept ms (update_message_body m.id plain none t)
              (ReadsAs-all ciphers c pubkey priv m.id plain none t ms keeps h.1)
              (update_message_body-IsKeyed ciphers c pubkey priv m.id plain none t k) in
          rw (e, unseal_rows, f)
            (
              rest.0 ∙ readings-update_message_body ciphers c pubkey priv m.id plain none t keeps,
              rest.1,
            )
    ]
  ]

  -- Both ends of a pass: the rows still read the same.
  abbrev pub IsUnsealKept : Messages → Passed → Type 0
  IsUnsealKept t fuel_out = Unit {0}
  IsUnsealKept t (threw left) = Kept ciphers c pubkey priv t left
  IsUnsealKept t (finished left) = Kept ciphers c pubkey priv t left

  IsUnsealKept-trans :
      (t u : Messages) (o : Passed)
      → readings ciphers c pubkey priv u ≡ readings ciphers c pubkey priv t
      → IsUnsealKept u o
      → IsUnsealKept t o
  IsUnsealKept-trans t u fuel_out e h = tt
  IsUnsealKept-trans t u (threw left) e h = (h.0 ∙ e, h.1)
  IsUnsealKept-trans t u (finished left) e h = (h.0 ∙ e, h.1)

  IsUnsealKept-go_on :
      (t : Messages) (rest : Messages → Passed) (r : Bool × Messages)
      → Kept ciphers c pubkey priv t r.1
      → ((u : Messages) → IsKeyed u → IsUnsealKept u (rest u))
      → IsUnsealKept t (go_on rest r)
  unfolding go_on
  IsUnsealKept-go_on t rest (true, u) k keeps = IsUnsealKept-trans t u (rest u) k.0 (keeps u k.1)
  IsUnsealKept-go_on t rest (false, u) k keeps = k

  unseal_history-IsUnsealKept :
      (fuel : ℕ) (t : Messages)
      → IsKeyed t
      → IsUnsealKept t (unseal_history ciphers c pubkey priv fuel t)
  unfolding unseal_history list_sealed_rows
  unseal_history-IsUnsealKept zero t k = tt
  unseal_history-IsUnsealKept (suc fuel) t k = elim (List-cases (list_sealed_rows c seal_batch t)) [
    | inl e ↦ rw (e, unseal_history) (refl, k)
    | inr (m, ms, e) ↦
        let same =
          subst (Every (ReadsAs ciphers c pubkey priv t)) e (batch-ReadsAs (is_sealed_row c) t k) in
        rw (e, unseal_history)
          (IsUnsealKept-go_on t (unseal_history ciphers c pubkey priv fuel)
            (unseal_rows ciphers c pubkey priv (m ∷ ms) t) (unseal_rows-Kept (m ∷ ms) t same k)
            (unseal_history-IsUnsealKept fuel))
  ]

  pub unseal_history_loses_nothing :
      (fuel : ℕ) (t : Messages)
      → count_rows (is_sealed_row c) t < fuel
      → IsSound t
      → (left : Messages) × ((unseal_history ciphers c pubkey priv fuel t ≡ threw left)
          ⊎ ((unseal_history ciphers c pubkey priv fuel t ≡ finished left)
              × (count_rows (is_sealed_row c) left ≡ 0)))
        × (readings ciphers c pubkey priv left ≡ readings ciphers c pubkey priv t)
  unseal_history_loses_nothing fuel t lt (k, bodied) =
      let (left, ends) = unseal_history_ends ciphers c pubkey priv fuel t lt bodied in
      let kept = unseal_history-IsUnsealKept fuel t k in
      (
        left,
        ends,
        elim ends [
          | inl e ↦ (subst (IsUnsealKept t) e kept).0
          | inr (e, none_left) ↦ (subst (IsUnsealKept t) e kept).0
        ],
      )
