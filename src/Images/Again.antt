-- ===== src/Images/Again.antt =====
-- The staging tables of src/db/repos/image-transfers.ts, and the image branches of
-- src/services/messaging.ts, when a message comes a second time.
use nuco_messenger.ChatLock.State.{Ciphers}
use nuco_messenger.Db.Conversations.{Conversation}
use nuco_messenger.Db.Messages.{Message, get_message}
use nuco_messenger.Db.Transfers.{
  ImageChunk, ImageTransfer, Staging, chunk_count, create_transfer, delete_transfer, drop_transfers,
  get_transfer, insert_chunk, is_chunk_of, is_transfer,
}
use nuco_messenger.Images.Receive.{
  ImageTools, Inbox, complete, receive_chunk, receive_image, store_chunk,
}
use nuco_messenger.Prelude.{
  Bool, Bool-cases, List, Option-cases, String, ap, arith, eq_iff, eq_refl, false, inl, inr, leb,
  none, not, refl, some, str_eq, sym, true, ℕ, ◌&&◌, ◌==◌, ◌||◌, ◌∙◌, ◌≡◌,
}
use nuco_messenger.Prelude.Rows.{discard, exists_row, first-discard, first_row}
use nuco_messenger.Prelude.Twice.{
  discard-again, discard_none, exists-append_new, exists-discard_gone, first-row_meets,
}

pub drop_transfers-again :
    (p : ImageTransfer → Bool) (s : Staging)
    → drop_transfers p (drop_transfers p s) ≡ drop_transfers p s
unfolding drop_transfers
drop_transfers-again p s =
    let left = discard p s.transfers in
    rw
      (
        discard-again p s.transfers,
        discard_none (λ (k : ImageChunk). exists_row (λ t. p t && is_transfer k.ref t) left)
            (λ k. exists-discard_gone p (is_transfer k.ref) s.transfers),
      )
      refl

create_transfer-again :
    (t u : ImageTransfer) (s : Staging)
    → u.ref ≡ t.ref
    → create_transfer u (create_transfer t s) ≡ create_transfer t s
unfolding create_transfer
create_transfer-again t u s same = elim (Bool-cases (exists_row (is_transfer t.ref) s.transfers)) [
  | inl e ↦ rw (e, same, e) refl
  | inr e ↦ rw (e, same, exists-append_new (is_transfer t.ref) t s.transfers (eq_refl t.ref)) refl
]

insert_chunk-again :
    (key : String) (n : ℕ) (body : List ℕ) (s : Staging)
    → insert_chunk key n body (insert_chunk key n body s) ≡ insert_chunk key n body s
unfolding insert_chunk
insert_chunk-again key n body s =
    let p = λ (k : ImageChunk). is_chunk_of key k && (k.seq == n) in
    elim (Bool-cases (exists_row p s.chunks)) [
      | inl e ↦ rw (e, e) refl
      | inr e ↦
          rw
            (
              e,
              exists-append_new p (record { ref = key; seq = n; slice_data = body }) s.chunks
                  (ground (arith, eq_refl key)),
            )
            refl
    ]

image_known :
    (t : ImageTransfer) (i : Inbox) (m : Message)
    → get_message t.ref i.messages ≡ some m
    → receive_image t i ≡ i
unfolding receive_image
image_known t i m e = rw (receive_image, e) refl

image_new :
    (t : ImageTransfer) (i : Inbox)
    → get_message t.ref i.messages ≡ none
    → receive_image t i ≡ record i { staging = create_transfer t i.staging }
unfolding receive_image
image_new t i e = rw (receive_image, e) refl

pub receive_image-again :
    (t u : ImageTransfer) (i : Inbox)
    → u.ref ≡ t.ref
    → receive_image u (receive_image t i) ≡ receive_image t i
receive_image-again t u i same = elim (Option-cases (get_message t.ref i.messages)) [
  | inl e ↦ rw (image_new t i e) (
      image_new u (record i { staging = create_transfer t i.staging })
        (ap (λ k. get_message k i.messages) same ∙ e)
      ∙ ap (λ (x : Staging). record i { staging = x }) (create_transfer-again t u i.staging same))
  | inr (m, e) ↦
      rw (image_known t i m e) (image_known u i m (ap (λ k. get_message k i.messages) same ∙ e))
]

transfers-insert_chunk :
    (key : String) (n : ℕ) (body : List ℕ) (s : Staging)
    → (insert_chunk key n body s).transfers ≡ s.transfers
unfolding insert_chunk
transfers-insert_chunk key n body s = ground arith

found_ref :
    (key : String) (t : ImageTransfer) (s : Staging) → get_transfer key s ≡ some t → t.ref ≡ key
unfolding get_transfer
found_ref key t s e = (eq_iff t.ref key).0 (first-row_meets (is_transfer key) s.transfers t e)

gone :
    (key : String) (t : ImageTransfer) (s : Staging)
    → t.ref ≡ key
    → get_transfer key (delete_transfer t.ref s) ≡ none
unfolding get_transfer delete_transfer drop_transfers
gone key t s e = rw e (first-discard (is_transfer key) s.transfers)

module _ (tools : ImageTools) (ciphers : Ciphers) (convo : Conversation) (contact : String) where
  abbrev is_unfit : ImageTransfer → ℕ → Bool
  is_unfit t n = not (str_eq t.conversation_id contact) || leb t.chunks_total n

  abbrev holding : String → ℕ → List ℕ → Inbox → Inbox
  holding key n body i = record i { staging = insert_chunk key n body i.staging }

  no_transfer :
      (seed now : ℕ) (key : String) (n : ℕ) (body : List ℕ) (i : Inbox)
      → get_transfer key i.staging ≡ none
      → receive_chunk tools ciphers seed now convo contact key n body i ≡ i
  unfolding receive_chunk
  no_transfer seed now key n body i e = rw (receive_chunk, e) refl

  unfit :
      (seed now : ℕ) (key : String) (n : ℕ) (body : List ℕ) (i : Inbox) (t : ImageTransfer)
      → get_transfer key i.staging ≡ some t
      → is_unfit t n ≡ true
      → receive_chunk tools ciphers seed now convo contact key n body i ≡ i
  unfolding receive_chunk
  unfit seed now key n body i t e u = rw (receive_chunk, e, u) refl

  fit :
      (seed now : ℕ) (key : String) (n : ℕ) (body : List ℕ) (i : Inbox) (t : ImageTransfer)
      → get_transfer key i.staging ≡ some t
      → is_unfit t n ≡ false
      → receive_chunk tools ciphers seed now convo contact key n body i
        ≡ store_chunk tools ciphers seed now convo contact t n body i
  unfolding receive_chunk
  fit seed now key n body i t e u = rw (receive_chunk, e, u) refl

  last_chunk :
      (seed now n : ℕ) (body : List ℕ) (i : Inbox) (t : ImageTransfer)
      → (chunk_count t.ref (holding t.ref n body i).staging == t.chunks_total) ≡ true
      → get_transfer t.ref (store_chunk tools ciphers seed now convo contact t n body i).staging
        ≡ none
  unfolding store_chunk complete
  last_chunk seed now n body i t e =
      rw (store_chunk, e) (gone t.ref t (holding t.ref n body i).staging refl)

  more_chunks :
      (seed now n : ℕ) (body : List ℕ) (i : Inbox) (t : ImageTransfer)
      → (chunk_count t.ref (holding t.ref n body i).staging == t.chunks_total) ≡ false
      → store_chunk tools ciphers seed now convo contact t n body i ≡ holding t.ref n body i
  unfolding store_chunk
  more_chunks seed now n body i t e = rw (store_chunk, e) refl

  stored_again :
      (seed now : ℕ) (key : String) (n : ℕ) (body : List ℕ) (i : Inbox) (t : ImageTransfer)
      → get_transfer key i.staging ≡ some t
      → is_unfit t n ≡ false
      → (chunk_count t.ref (holding t.ref n body i).staging == t.chunks_total) ≡ false
      → receive_chunk tools ciphers seed now convo contact key n body (holding t.ref n body i)
        ≡ holding t.ref n body i
  unfolding get_transfer
  stored_again seed now key n body i t e u more =
      let kept = holding t.ref n body i in
      let twice =
        ap (λ (x : Staging). record i { staging = x })
          (insert_chunk-again t.ref n body i.staging) in
      fit seed now key n body kept t
        (ap (first_row (is_transfer key)) (transfers-insert_chunk t.ref n body i.staging) ∙ e) u
      ∙ more_chunks seed now n body kept t
          (ap (λ (x : Inbox). chunk_count t.ref x.staging == t.chunks_total) twice ∙ more)
      ∙ twice

  -- A chunk that comes a second time, at whatever time, changes nothing.
  pub receive_chunk-again :
      (seed now seed_later later : ℕ) (key : String) (n : ℕ) (body : List ℕ) (i : Inbox)
      → let once = receive_chunk tools ciphers seed now convo contact key n body i in
        receive_chunk tools ciphers seed_later later convo contact key n body once ≡ once
  receive_chunk-again seed now seed_later later key n body i =
      elim (Option-cases (get_transfer key i.staging)) [
        | inl e ↦
            rw (no_transfer seed now key n body i e) (no_transfer seed_later later key n body i e)
        | inr (t, e) ↦ elim (Bool-cases (is_unfit t n)) [
          | inl u ↦
              rw (unfit seed now key n body i t e u) (unfit seed_later later key n body i t e u)
          | inr u ↦
              let once = store_chunk tools ciphers seed now convo contact t n body i in
              let named = found_ref key t i.staging e in
              rw (fit seed now key n body i t e u)
                (elim (Bool-cases
                  (chunk_count t.ref (holding t.ref n body i).staging == t.chunks_total)) [
                    | inl full ↦ no_transfer seed_later later key n body once (
                        ap (λ k. get_transfer k once.staging) (sym named)
                        ∙ last_chunk seed now n body i t full)
                    | inr more ↦
                        rw (more_chunks seed now n body i t more)
                          (stored_again seed_later later key n body i t e u more)
                  ])
        ]
      ]
