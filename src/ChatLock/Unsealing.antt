-- ===== src/ChatLock/Unsealing.antt =====
-- The pass of src/lock/chat-locks.ts that decrypts a chat's history back.
use nuco_messenger.ChatLock.History.{
  Passed, both, finished, go_on, threw, unseal_history, unseal_rows,
}
use nuco_messenger.ChatLock.Passes.{IsDue, batch-IsDue, no_less}
use nuco_messenger.ChatLock.State.{Ciphers, seal_batch}
use nuco_messenger.Db.Integrity.{IsBodied}
use nuco_messenger.Db.Messages.{
  Message, Messages, is_message, is_sealed_row, list_sealed_rows, update_message_body, with_body,
}
use nuco_messenger.Prelude.{
  Bool, Bool-cases, Option-cases, String, [], arith, false, inl, inr, none, refl, some, subst, suc,
  sym, true, zero, ℕ, ◌<◌, ◌∙◌, ◌∷◌, ◌≡◌, ◌≤◌, ◌⊎◌,
}
use nuco_messenger.Prelude.Batches.{
  List-cases, batch_empty, count-modify-le, count-modify-lt, select-Every, sort_by-Every,
  take-Every,
}
use nuco_messenger.Prelude.Rows.{Every, count_rows, modify-Every}

list_sealed-IsDue :
    (c : String) (t : Messages)
    → Every (IsDue (is_sealed_row c) t) (list_sealed_rows c seal_batch t)
unfolding list_sealed_rows
list_sealed-IsDue c t = batch-IsDue (is_sealed_row c) seal_batch t

list_sealed-Every :
    (c : String) (t : Messages)
    → Every IsBodied t
    → Every IsBodied (list_sealed_rows c seal_batch t)
unfolding list_sealed_rows
list_sealed-Every c t h =
    take-Every IsBodied seal_batch _
      (sort_by-Every IsBodied (λ m. m.sent_at) _ (select-Every IsBodied (is_sealed_row c) t h))

nothing_sealed :
    (c : String) (t : Messages)
    → list_sealed_rows c seal_batch t ≡ []
    → count_rows (is_sealed_row c) t ≡ 0
unfolding list_sealed_rows
nothing_sealed c t e = batch_empty (is_sealed_row c) (λ m. m.sent_at) 49 t e

plain_off : (c b : String) (m : Message) → is_sealed_row c (with_body b none m) ≡ false
unfolding is_sealed_row
plain_off c b m = ground arith

-- A sealed row with a body has both texts.
both-some :
    (c : String) (m : Message)
    → is_sealed_row c m ≡ true
    → IsBodied m
    → (b : String) × (s : String) × (both m.body m.meta ≡ some (b, s))
unfolding is_sealed_row
both-some c m e h = elim (Option-cases m.body) [
  | inl x ↦ ground arith
  | inr (b, x) ↦ elim (Option-cases m.meta) [
    | inl y ↦ ground arith
    | inr (s, y) ↦ (b, s, rw (x, y) refl)
  ]
]

go_on-true : (rest : Messages → Passed) (r : Bool × Messages) → r.0 ≡ true → go_on rest r ≡ rest r.1
unfolding go_on
go_on-true rest r e = ground arith

go_on-false :
    (rest : Messages → Passed) (r : Bool × Messages) → r.0 ≡ false → go_on rest r ≡ threw r.1
unfolding go_on
go_on-false rest r e = ground arith

module _ (ciphers : Ciphers) (c pubkey priv : String) where
  -- The rows that an inner loop leaves are bodied, and no more of them are sealed than before.
  unseal_rows-le :
      (ms t : Messages)
      → Every IsBodied t
      → let (ok, left) = unseal_rows ciphers c pubkey priv ms t in
        (count_rows (is_sealed_row c) left ≤ count_rows (is_sealed_row c) t) × Every IsBodied left
  unfolding unseal_rows update_message_body
  unseal_rows-le [] t h = (omega arith, h)
  unseal_rows-le (m ∷ ms) t h = elim (Option-cases (both m.body m.meta)) [
    | inl e ↦ rw (e, unseal_rows) (unseal_rows-le ms t h)
    | inr ((b, s), e) ↦ elim (Option-cases (ciphers.open_body b s priv pubkey c m.id)) [
      | inl f ↦ rw (e, unseal_rows, f) (omega arith, h)
      | inr (plain, f) ↦
          let rest =
            unseal_rows-le ms (update_message_body m.id plain none t) (
              modify-Every IsBodied (is_message m.id) (with_body plain none) (λ x k y. refl) t h) in
          rw (e, unseal_rows, f)
            (
              omega (
                arith,
                rest.0,
                count-modify-le (is_sealed_row c) (is_message m.id) (with_body plain none)
                    (plain_off c plain) t,
              ),
              rest.1,
            )
    ]
  ]

  unseal_rows-lt :
      (m : Message) (ms t : Messages)
      → IsDue (is_sealed_row c) t m
      → IsBodied m
      → Every IsBodied t
      → let (ok, left) = unseal_rows ciphers c pubkey priv (m ∷ ms) t in
        ok ≡ true → count_rows (is_sealed_row c) left < count_rows (is_sealed_row c) t
  unfolding unseal_rows update_message_body
  unseal_rows-lt m ms t due bodied h =
      let (b, s, e) = both-some c m due.0 bodied in
      elim (Option-cases (ciphers.open_body b s priv pubkey c m.id)) [
        | inl f ↦ rw (e, unseal_rows, f) λ ok. cc
        | inr (plain, f) ↦
            let rest = unseal_rows-le ms (update_message_body m.id plain none t) (
              modify-Every IsBodied (is_message m.id) (with_body plain none) (λ x k y. refl) t h) in
            rw (e, unseal_rows, f)
              λ ok. omega (
                arith,
                rest.0,
                count-modify-lt (is_sealed_row c) (is_message m.id) (with_body plain none)
                    (plain_off c plain) t due.1,
              )
      ]

  last_round :
      (fuel : ℕ) (t : Messages)
      → list_sealed_rows c seal_batch t ≡ []
      → unseal_history ciphers c pubkey priv (suc fuel) t ≡ finished t
  unfolding unseal_history
  last_round fuel t e = rw (e, unseal_history) refl

  one_round :
      (fuel : ℕ) (t : Messages) (m : Message) (ms : Messages)
      → list_sealed_rows c seal_batch t ≡ m ∷ ms
      → unseal_history ciphers c pubkey priv (suc fuel) t
        ≡ go_on
            (unseal_history ciphers c pubkey priv fuel)
            (unseal_rows ciphers c pubkey priv (m ∷ ms) t)
  unfolding unseal_history
  one_round fuel t m ms e = rw (e, unseal_history) refl

  -- Decrypting the history of a chat back ends, in as many rounds as it has sealed rows at most, if
  -- every sealed row has a body: either a row did not open, and the pass threw, or no row of the chat
  -- is sealed any more.
  pub unseal_history_ends :
      (fuel : ℕ) (t : Messages)
      → count_rows (is_sealed_row c) t < fuel
      → Every IsBodied t
      → (left : Messages) × ((unseal_history ciphers c pubkey priv fuel t ≡ threw left)
          ⊎ ((unseal_history ciphers c pubkey priv fuel t ≡ finished left)
              × (count_rows (is_sealed_row c) left ≡ 0)))
  unseal_history_ends zero t lt h = elim (no_less _ lt) [ ]
  unseal_history_ends (suc fuel) t lt h = elim (List-cases (list_sealed_rows c seal_batch t)) [
    | inl e ↦ (t, inr (last_round fuel t e, nothing_sealed c t e))
    | inr (m, ms, e) ↦
        let due = subst (Every (IsDue (is_sealed_row c) t)) e (list_sealed-IsDue c t) in
        let bodied = subst (Every IsBodied) e (list_sealed-Every c t h) in
        let rows = unseal_rows ciphers c pubkey priv (m ∷ ms) t in
        elim (Bool-cases rows.0) [
          | inl ok ↦
              let (left, ends) =
                unseal_history_ends fuel rows.1
                  (omega (arith, lt, unseal_rows-lt m ms t due.0 bodied.0 h ok))
                  (unseal_rows-le (m ∷ ms) t h).1 in
              (
                left,
                subst
                    (λ x.
                      (x ≡ threw left)
                      ⊎ ((x ≡ finished left) × (count_rows (is_sealed_row c) left ≡ 0)))
                    (sym (
                      one_round fuel t m ms e
                      ∙ go_on-true (unseal_history ciphers c pubkey priv fuel) rows ok))
                    ends,
              )
          | inr bad ↦ (
            rows.1,
            inl (
                one_round fuel t m ms e
                ∙ go_on-false (unseal_history ciphers c pubkey priv fuel) rows bad),
          )
        ]
  ]
