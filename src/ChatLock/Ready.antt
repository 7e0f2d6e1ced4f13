-- ===== src/ChatLock/Ready.antt =====
-- Rows that a locked chat's key opens, under the passes of src/lock/chat-locks.ts.
use nuco_messenger.ChatLock.History.{
  Passed, both, go_on, seal_history, seal_rows, threw, unseal_history, unseal_rows,
}
use nuco_messenger.ChatLock.Passes.{IsDue, batch-IsDue}
use nuco_messenger.ChatLock.Readings.{reading, sealed_reading}
use nuco_messenger.ChatLock.State.{Ciphers, seal_batch}
use nuco_messenger.Db.Integrity.{IsBodied}
use nuco_messenger.Db.Messages.{
  Message, Messages, is_message, is_sealed_row, list_sealable_plaintext, list_sealed_rows,
  update_message_body, with_body,
}
use nuco_messenger.Prelude.{
  Bool, Bool-cases, Option, Option-cases, String, [], ap, arith, eq_iff, false, inl, inr, is_some,
  none, refl, some, subst, suc, true, zero, ℕ, ◌∙◌, ◌∷◌, ◌≡◌,
}
use nuco_messenger.Prelude.Batches.{
  Every-weaken, List-cases, select-Every, sort_by-Every, take-Every,
}
use nuco_messenger.Prelude.Rows.{Every, modify, modify-Every}

module _ (ciphers : Ciphers) (c pubkey priv : String) where
  -- A sealed row of the chat reads something with its key.
  abbrev pub IsOpenable : Message → Type 0
  IsOpenable m = is_sealed_row c m ≡ true → is_some (reading ciphers c pubkey priv m) ≡ true

  abbrev pub DoesNotThrow : Passed → Type 0
  DoesNotThrow (threw left) = ⊥
  DoesNotThrow _ = Unit {0}

  DoesNotThrow-go_on :
      (rest : Messages → Passed) (r : Bool × Messages)
      → r.0 ≡ true
      → DoesNotThrow (rest r.1)
      → DoesNotThrow (go_on rest r)
  unfolding go_on
  DoesNotThrow-go_on rest (true, u) e h = h
  DoesNotThrow-go_on rest (false, u) e h = cc

  unseal_rows-opens :
      (ms t : Messages)
      → Every (λ m. is_sealed_row c m ≡ true) ms
      → Every IsOpenable ms
      → (unseal_rows ciphers c pubkey priv ms t).0 ≡ true
  unfolding unseal_rows reading
  unseal_rows-opens [] t d h = refl
  unseal_rows-opens (m ∷ ms) t d h = elim (Option-cases (both m.body m.meta)) [
    | inl e ↦ rw (e, unseal_rows) (unseal_rows-opens ms t d.1 h.1)
    | inr ((b, s), e) ↦ elim (Option-cases (ciphers.open_body b s priv pubkey c m.id)) [
      | inl f ↦ ground (arith, d.0, h.0, e, f)
      | inr (plain, f) ↦
          rw (e, unseal_rows, f)
            (unseal_rows-opens ms (update_message_body m.id plain none t) d.1 h.1)
    ]
  ]

  plain_IsOpenable : (plain : String) (m : Message) → IsOpenable (with_body plain none m)
  unfolding is_sealed_row
  plain_IsOpenable plain m d = ground (arith, d)

  unseal_rows-IsOpenable :
      (ms t : Messages)
      → Every IsOpenable t
      → Every IsOpenable (unseal_rows ciphers c pubkey priv ms t).1
  unfolding unseal_rows update_message_body
  unseal_rows-IsOpenable [] t h = h
  unseal_rows-IsOpenable (m ∷ ms) t h = elim (Option-cases (both m.body m.meta)) [
    | inl e ↦ rw (e, unseal_rows) (unseal_rows-IsOpenable ms t h)
    | inr ((b, s), e) ↦ elim (Option-cases (ciphers.open_body b s priv pubkey c m.id)) [
      | inl f ↦ rw (e, unseal_rows, f) h
      | inr (plain, f) ↦
          rw (e, unseal_rows, f)
            (unseal_rows-IsOpenable ms (update_message_body m.id plain none t) (
              modify-Every IsOpenable (is_message m.id) (with_body plain none)
                (λ x k. plain_IsOpenable plain x) t h))
    ]
  ]

  pub unseal_history-DoesNotThrow :
      (fuel : ℕ) (t : Messages)
      → Every IsOpenable t
      → DoesNotThrow (unseal_history ciphers c pubkey priv fuel t)
  unfolding unseal_history list_sealed_rows
  unseal_history-DoesNotThrow zero t h = tt
  unseal_history-DoesNotThrow (suc fuel) t h = elim (List-cases (list_sealed_rows c seal_batch t)) [
    | inl e ↦ rw (e, unseal_history) tt
    | inr (m, ms, e) ↦
        let due =
          subst (Every (IsDue (is_sealed_row c) t)) e
            (batch-IsDue (is_sealed_row c) seal_batch t) in
        let openable = subst (Every IsOpenable) e (
          take-Every IsOpenable seal_batch _ (
            sort_by-Every IsOpenable (λ m. m.sent_at) _
              (select-Every IsOpenable (is_sealed_row c) t h))) in
        rw (e, unseal_history)
          (DoesNotThrow-go_on (unseal_history ciphers c pubkey priv fuel)
            (unseal_rows ciphers c pubkey priv (m ∷ ms) t)
            (unseal_rows-opens (m ∷ ms) t
              (Every-weaken {P = IsDue (is_sealed_row c) t} (λ x h. h.0) (m ∷ ms) due) openable)
            (unseal_history-DoesNotThrow fuel _ (unseal_rows-IsOpenable (m ∷ ms) t h)))
  ]

  -- A sealed row of the chat has a body, and reads something.
  abbrev pub IsReady : Message → Type 0
  IsReady m = IsBodied m × IsOpenable m

  abbrev pub IsSealReady : Option (ℕ × Messages) → Type 0
  IsSealReady none = Unit {0}
  IsSealReady (some (later, sealed)) = Every IsReady sealed

  sealed-IsReady :
      (key b s plain : String) (t : Messages)
      → ciphers.open_body b s priv pubkey c key ≡ some plain
      → Every IsReady t
      → Every IsReady (update_message_body key b (some s) t)
  unfolding update_message_body modify
  sealed-IsReady key b s plain [] o h = tt
  sealed-IsReady key b s plain (m ∷ ms) o h = elim (Bool-cases (is_message key m)) [
    | inl e ↦ rw e (
      (
        λ x. refl,
        λ x.
            ap is_some (
              sealed_reading ciphers c pubkey priv m b s key (ground (arith, eq_iff m.id key)) ∙ o),
      ),
      sealed-IsReady key b s plain ms o h.1,
    )
    | inr e ↦ rw e (h.0, sealed-IsReady key b s plain ms o h.1)
  ]

  module _
      (opens : (seed : ℕ) (plain key : String)
        → let (b, s) = ciphers.seal_body seed plain pubkey c key in
          ciphers.open_body b s priv pubkey c key ≡ some plain) where
    seal_rows-IsReady :
        (ms : Messages) (seed : ℕ) (t : Messages)
        → Every IsReady t
        → Every IsReady (seal_rows ciphers c pubkey ms seed t).1
    unfolding seal_rows
    seal_rows-IsReady [] seed t h = h
    seal_rows-IsReady (m ∷ ms) seed t h = elim (Option-cases m.body) [
      | inl e ↦ rw (e, seal_rows) (seal_rows-IsReady ms seed t h)
      | inr (plain, e) ↦
          let (b, s) = ciphers.seal_body seed plain pubkey c m.id in
          rw (e, seal_rows)
            (seal_rows-IsReady ms (suc seed) (update_message_body m.id b (some s) t)
              (sealed-IsReady m.id b s plain t (opens seed plain m.id) h))
    ]

    pub seal_history-IsSealReady :
        (fuel seed : ℕ) (t : Messages)
        → Every IsReady t
        → IsSealReady (seal_history ciphers c pubkey fuel seed t)
    unfolding seal_history list_sealable_plaintext
    seal_history-IsSealReady zero seed t h = tt
    seal_history-IsSealReady (suc fuel) seed t h =
        elim (List-cases (list_sealable_plaintext c seal_batch t)) [
          | inl e ↦ rw (e, seal_history) h
          | inr (m, ms, e) ↦
              let (later, sealed) = seal_rows ciphers c pubkey (m ∷ ms) seed t in
              rw (e, seal_history)
                (seal_history-IsSealReady fuel later sealed (seal_rows-IsReady (m ∷ ms) seed t h))
        ]
