-- ===== src/ChatLock/Readings.antt =====
-- What the rows of src/db/repos/messages.ts read with the key of a locked chat, under the passes of
-- src/lock/chat-locks.ts over its history.
use nuco_messenger.ChatLock.History.{both, seal_rows}
use nuco_messenger.ChatLock.State.{Ciphers}
use nuco_messenger.Db.Integrity.{IsKeyed, modify-IsKeyed}
use nuco_messenger.Db.Messages.{
  Message, Messages, is_message, is_sealable, update_message_body, with_body,
}
use nuco_messenger.Prelude.{
  Bool-cases, List, Option, Option-cases, String, [], arith, eq_iff, false, inl, inr, none, refl,
  some, suc, sym, true, ℕ, ◌∙◌, ◌∷◌, ◌≡◌,
}
use nuco_messenger.Prelude.Rows.{Every, exists_row, modify}

module _ (ciphers : Ciphers) (c pubkey priv : String) where
  -- What the screen of the unlocked chat shows for a row: the body of a plain row, and the opened
  -- body of a sealed one.
  unfoldable pub reading : Message → Option String
  reading m = elim (both m.body m.meta) [
    | none ↦ m.body
    | some (b, s) ↦ ciphers.open_body b s priv pubkey c m.id
  ]

  unfoldable pub readings : Messages → List (String × Option String)
  unfolding reading
  readings [] = []
  readings (m ∷ ms) = (m.id, reading m) ∷ readings ms

  -- Each row with the id of `m` reads as `m` does.
  abbrev pub ReadsAs : Messages → Message → Type 0
  ReadsAs t m = Every (λ x. is_message m.id x ≡ true → reading x ≡ reading m) t

  -- The rows with the id `key` still read the same with another body.
  abbrev pub KeepsReading : String → String → Option String → Messages → Type 0
  KeepsReading key b s t =
      Every (λ x. is_message key x ≡ true → reading (with_body b s x) ≡ reading x) t

  pub readings-update_message_body :
      (key b : String) (s : Option String) (t : Messages)
      → KeepsReading key b s t
      → readings (update_message_body key b s t) ≡ readings t
  unfolding readings update_message_body modify
  readings-update_message_body key b s [] h = refl
  readings-update_message_body key b s (m ∷ ms) h = elim (Bool-cases (is_message key m)) [
    | inl e ↦ rw (e, h.0 e, readings-update_message_body key b s ms h.1) refl
    | inr e ↦ rw (e, readings-update_message_body key b s ms h.1) refl
  ]

  update_message_body-ReadsAs :
      (key b : String) (s : Option String) (m : Message) (t : Messages)
      → KeepsReading key b s t
      → ReadsAs t m
      → ReadsAs (update_message_body key b s t) m
  unfolding update_message_body modify
  update_message_body-ReadsAs key b s m [] k h = tt
  update_message_body-ReadsAs key b s m (x ∷ xs) k h =
      let rest = update_message_body-ReadsAs key b s m xs k.1 h.1 in
      elim (Bool-cases (is_message key x)) [
        | inl e ↦ rw e (λ i. k.0 e ∙ h.0 i, rest)
        | inr e ↦ rw e (h.0, rest)
      ]

  -- No row of the table has the id of `m`.
  no_row-ReadsAs :
      (m : Message) (t : Messages) → exists_row (is_message m.id) t ≡ false → ReadsAs t m
  unfolding exists_row
  no_row-ReadsAs m [] h = tt
  no_row-ReadsAs m (x ∷ xs) h = elim (Bool-cases (is_message m.id x)) [
    | inl e ↦ ground (arith, e)
    | inr e ↦ (λ i. cc (e, i), no_row-ReadsAs m xs (ground (arith, e)))
  ]

  ReadsAs-later :
      (m : Message) (ms ns : Messages)
      → exists_row (is_message m.id) ns ≡ false
      → Every (ReadsAs ms) ns
      → Every (ReadsAs (m ∷ ms)) ns
  unfolding exists_row
  ReadsAs-later m ms [] a h = tt
  ReadsAs-later m ms (n ∷ ns) a h = elim (Bool-cases (is_message m.id n)) [
    | inl e ↦ ground (arith, e)
    | inr e ↦ (
      (λ i. ground (arith, eq_iff m.id n.id, eq_iff n.id m.id), h.0),
      ReadsAs-later m ms ns (ground (arith, e)) h.1,
    )
  ]

  -- With the primary key every row reads as itself.
  pub keyed-ReadsAs : (t : Messages) → IsKeyed t → Every (ReadsAs t) t
  keyed-ReadsAs [] h = tt
  keyed-ReadsAs (m ∷ ms) h =
      ((λ i. refl, no_row-ReadsAs m ms h.0), ReadsAs-later m ms ms h.0 (keyed-ReadsAs ms h.1))

  pub new_body-KeepsReading :
      (m : Message) (b plain : String) (s : Option String) (t : Messages)
      → reading m ≡ some plain
      → ((x : Message) → x.id ≡ m.id → reading (with_body b s x) ≡ some plain)
      → ReadsAs t m
      → KeepsReading m.id b s t
  new_body-KeepsReading m b plain s [] r new h = tt
  new_body-KeepsReading m b plain s (x ∷ xs) r new h = (
    λ i. new x (ground (arith, i, eq_iff x.id m.id)) ∙ sym r ∙ sym (h.0 i),
    new_body-KeepsReading m b plain s xs r new h.1,
  )

  pub ReadsAs-all :
      (key b : String) (s : Option String) (t ms : Messages)
      → KeepsReading key b s t
      → Every (ReadsAs t) ms
      → Every (ReadsAs (update_message_body key b s t)) ms
  ReadsAs-all key b s t [] k h = tt
  ReadsAs-all key b s t (m ∷ ms) k h =
      (update_message_body-ReadsAs key b s m t k h.0, ReadsAs-all key b s t ms k h.1)

  pub update_message_body-IsKeyed :
      (key b : String) (s : Option String) (t : Messages)
      → IsKeyed t
      → IsKeyed (update_message_body key b s t)
  unfolding update_message_body
  update_message_body-IsKeyed key b s t h =
      modify-IsKeyed (is_message key) (with_body b s) (λ m. refl) t h

  -- What a pass keeps.
  abbrev pub Kept : Messages → Messages → Type 0
  Kept before after = (readings after ≡ readings before) × IsKeyed after

  plain_reading :
      (m : Message) (plain : String)
      → is_sealable c m ≡ true
      → m.body ≡ some plain
      → reading m ≡ some plain
  unfolding reading is_sealable
  plain_reading m plain d e = elim (Option-cases m.meta) [
    | inl f ↦ rw (e, f) refl
    | inr (s, f) ↦ ground (arith, d, f)
  ]

  pub sealed_reading :
      (x : Message) (b s key : String)
      → x.id ≡ key
      → reading (with_body b (some s) x) ≡ ciphers.open_body b s priv pubkey c key
  unfolding reading
  sealed_reading x b s key e = rw e refl

  module _
      (opens : (seed : ℕ) (plain key : String)
        → let (b, s) = ciphers.seal_body seed plain pubkey c key in
          ciphers.open_body b s priv pubkey c key ≡ some plain) where
    pub seal_rows-Kept :
        (ms : Messages) (seed : ℕ) (t : Messages)
        → Every (λ m. is_sealable c m ≡ true) ms
        → Every (ReadsAs t) ms
        → IsKeyed t
        → Kept t (seal_rows ciphers c pubkey ms seed t).1
    unfolding seal_rows
    seal_rows-Kept [] seed t d h k = (refl, k)
    seal_rows-Kept (m ∷ ms) seed t d h k = elim (Option-cases m.body) [
      | inl e ↦ rw (e, seal_rows) (seal_rows-Kept ms seed t d.1 h.1 k)
      | inr (plain, e) ↦
          let (b, s) = ciphers.seal_body seed plain pubkey c m.id in
          let keeps =
            new_body-KeepsReading m b plain (some s) t (plain_reading m plain d.0 e)
              (λ x i. sealed_reading x b s m.id i ∙ opens seed plain m.id) h.0 in
          let rest =
            seal_rows-Kept ms (suc seed) (update_message_body m.id b (some s) t) d.1
              (ReadsAs-all m.id b (some s) t ms keeps h.1)
              (update_message_body-IsKeyed m.id b (some s) t k) in
          rw (e, seal_rows) (rest.0 ∙ readings-update_message_body m.id b (some s) t keeps, rest.1)
    ]
