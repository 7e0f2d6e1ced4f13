-- ===== src/Db/Integrity.antt =====
-- The primary key of the messages table, and the bodies of sealed rows, in every history.
use nuco_messenger.Db.Messages.{
  Message, MessageStatus, Messages, delete_conversation_messages, delete_message,
  delete_peer_authored, in_conversation, insert_message, is_expired, is_message, is_peer_authored,
  is_unread, mark_conversation_read, mark_read, sweep_expired, update_message_body,
  update_message_status, with_body,
}
use nuco_messenger.Prelude.{
  Bool, Bool-cases, List, Option, String, [], arith, eq_iff, false, if_rule, if◌then◌else◌, inl,
  inr, is_some, refl, true, ℕ, ◌++◌, ◌∷◌, ◌≡◌,
}
use nuco_messenger.Prelude.Rows.{Every, discard, discard-Every, exists_row, modify, modify-Every}

-- One call of the repository that changes the table.
pub data Change : Type 0 where
  inserts : Message → Change
  deletes : String → Change
  retracts : String → String → Change
  rewrites : String → String → Option String → Change
  restates : String → MessageStatus → Change
  reads clears : String → Change
  sweeps : ℕ → Change

unfoldable pub apply_change : Change → Messages → Messages
unfolding insert_message delete_message delete_peer_authored update_message_body
    update_message_status mark_conversation_read delete_conversation_messages sweep_expired
apply_change (inserts m) t = insert_message m t
apply_change (deletes key) t = delete_message key t
apply_change (retracts key c) t = (delete_peer_authored key c t).1
apply_change (rewrites key new_body sealing) t = update_message_body key new_body sealing t
apply_change (restates key status) t = update_message_status key status t
apply_change (reads c) t = (mark_conversation_read c t).1
apply_change (clears c) t = delete_conversation_messages c t
apply_change (sweeps now) t = (sweep_expired now t).1

unfoldable pub apply_changes : List Change → Messages → Messages
unfolding apply_change
apply_changes [] t = t
apply_changes (e ∷ es) t = apply_changes es (apply_change e t)

-- No id stands twice.
abbrev pub IsKeyed : Messages → Type 0
IsKeyed [] = Unit {0}
IsKeyed (m ∷ ms) = (exists_row (is_message m.id) ms ≡ false) × IsKeyed ms

-- A sealed row has a body.
abbrev pub IsBodied : Message → Type 0
IsBodied m = is_some m.meta ≡ true → is_some m.body ≡ true

abbrev pub SendsBodies : Change → Type 0
SendsBodies (inserts m) = IsBodied m
SendsBodies _ = Unit {0}

exists-discard :
    (key : String) (p : Message → Bool) (t : Messages)
    → exists_row (is_message key) t ≡ false
    → exists_row (is_message key) (discard p t) ≡ false
unfolding exists_row discard
exists-discard key p [] h = h
exists-discard key p (m ∷ ms) h = ground (arith, exists-discard key p ms)

discard-IsKeyed : (p : Message → Bool) (t : Messages) → IsKeyed t → IsKeyed (discard p t)
unfolding discard
discard-IsKeyed p [] h = h
discard-IsKeyed p (m ∷ ms) h = ground (arith, discard-IsKeyed p ms, exists-discard m.id p ms)

module _ (p : Message → Bool) (f : Message → Message) (same : (m : Message) → (f m).id ≡ m.id) where
  same_id : (m : Message) → (if p m then f m else m).id ≡ m.id
  same_id m = if_rule (λ (x : Message). x.id ≡ m.id) (p m) (same m) refl

  exists-modify :
      (key : String) (t : Messages)
      → exists_row (is_message key) (modify p f t) ≡ exists_row (is_message key) t
  unfolding exists_row modify
  exists-modify key [] = refl
  exists-modify key (m ∷ ms) = rw (same_id m, exists-modify key ms)

  pub modify-IsKeyed : (t : Messages) → IsKeyed t → IsKeyed (modify p f t)
  unfolding modify
  modify-IsKeyed [] h = h
  modify-IsKeyed (m ∷ ms) h = (rw (same_id m, exists-modify m.id ms) h.0, modify-IsKeyed ms h.1)

exists-append_last :
    (key : String) (m : Message) (t : Messages)
    → exists_row (is_message key) (t ++ m ∷ [])
      ≡ (if is_message key m then true else exists_row (is_message key) t)
unfolding exists_row
exists-append_last key m [] = refl
exists-append_last key m (n ∷ ns) = ground (arith, exists-append_last key m ns)

append_last-IsKeyed :
    (m : Message) (t : Messages)
    → exists_row (is_message m.id) t ≡ false
    → IsKeyed t
    → IsKeyed (t ++ m ∷ [])
unfolding exists_row
append_last-IsKeyed m [] n h = (refl, tt)
append_last-IsKeyed m (k ∷ ks) n h = ground (
  arith,
  append_last-IsKeyed m ks,
  exists-append_last k.id m ks,
  eq_iff m.id k.id,
  eq_iff k.id m.id,
)

insert_message-IsKeyed : (m : Message) (t : Messages) → IsKeyed t → IsKeyed (insert_message m t)
unfolding insert_message
insert_message-IsKeyed m t h = elim (Bool-cases (exists_row (is_message m.id) t)) [
  | inl known ↦ rw known h
  | inr fresh_id ↦ rw fresh_id (append_last-IsKeyed m t fresh_id h)
]

append_last-Every :
    (m : Message) (t : Messages) → IsBodied m → Every IsBodied t → Every IsBodied (t ++ m ∷ [])
append_last-Every m [] b h = (b, tt)
append_last-Every m (n ∷ ns) b h = (h.0, append_last-Every m ns b h.1)

abbrev pub IsSound : Messages → Type 0
IsSound t = IsKeyed t × Every IsBodied t

discard-IsSound : (p : Message → Bool) (t : Messages) → IsSound t → IsSound (discard p t)
discard-IsSound p t h = (discard-IsKeyed p t h.0, discard-Every IsBodied p t h.1)

modify-IsSound :
    (p : Message → Bool) (f : Message → Message)
    → ((m : Message) → (f m).id ≡ m.id)
    → ((m : Message) → IsBodied m → IsBodied (f m))
    → (t : Messages) → IsSound t
    → IsSound (modify p f t)
modify-IsSound p f same keep t h =
    (modify-IsKeyed p f same t h.0, modify-Every IsBodied p f keep t h.1)

insert_message-IsSound :
    (m : Message) (t : Messages) → IsBodied m → IsSound t → IsSound (insert_message m t)
unfolding insert_message
insert_message-IsSound m t b h = (
  insert_message-IsKeyed m t h.0,
  if_rule (Every IsBodied) (exists_row (is_message m.id) t) h.1 (append_last-Every m t b h.1),
)

apply_change-IsSound :
    (e : Change) (t : Messages) → SendsBodies e → IsSound t → IsSound (apply_change e t)
unfolding apply_change
apply_change-IsSound (inserts m) t b h = insert_message-IsSound m t b h
apply_change-IsSound (deletes key) t b h = discard-IsSound (is_message key) t h
apply_change-IsSound (retracts key c) t b h = discard-IsSound (is_peer_authored key c) t h
apply_change-IsSound (rewrites key new_body sealing) t b h =
    modify-IsSound (is_message key) (with_body new_body sealing) (λ m. refl) (λ m k e. refl) t h
apply_change-IsSound (restates key status) t b h =
    modify-IsSound (is_message key) (λ m. record m { message_status = status }) (λ m. refl)
      (λ m k. k) t h
apply_change-IsSound (reads c) t b h =
    modify-IsSound (is_unread c) mark_read (λ m. refl) (λ m k. k) t h
apply_change-IsSound (clears c) t b h = discard-IsSound (in_conversation c) t h
apply_change-IsSound (sweeps now) t b h = discard-IsSound (is_expired now) t h

changes-IsSound :
    (es : List Change) (t : Messages)
    → Every SendsBodies es
    → IsSound t
    → IsSound (apply_changes es t)
unfolding apply_changes
changes-IsSound [] t b h = h
changes-IsSound (e ∷ es) t b h =
    changes-IsSound es (apply_change e t) b.1 (apply_change-IsSound e t b.0 h)

-- After every history of the repository's operations on an empty table, no two rows have the same
-- id, and every row with sealing parameters has a body, if no row is inserted with parameters and no
-- body.
pub history-IsSound : (es : List Change) → Every SendsBodies es → IsSound (apply_changes es [])
history-IsSound es b = changes-IsSound es [] b (tt, tt)
