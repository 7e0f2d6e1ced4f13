-- ===== src/Db/Counts.antt =====
-- The messages of src/db/repos/messages.ts that an operation removes, marks or counts.
use nuco_messenger.Db.Integrity.{IsKeyed}
use nuco_messenger.Db.Messages.{
  Message, Messages, delete_peer_authored, get_message, is_expired, is_message, is_peer_authored,
  is_unread, mark_conversation_read, mark_read, sweep_expired,
}
use nuco_messenger.Prelude.{
  Bool, Bool-cases, Option-cases, String, [], arith, eq_iff, false, if◌then◌else◌, inl, inr, length,
  none, refl, some, str_eq, true, ℕ, ◌+◌, ◌<◌, ◌∷◌, ◌≡◌, ◌≤◌, ◌⊎◌,
}
use nuco_messenger.Prelude.Batches.{Every-weaken}
use nuco_messenger.Prelude.Rows.{
  Every, count-discard, count_rows, discard, discard-count, exists_row, first-discard_other,
  first_row, modify,
}

abbrev IsLive : ℕ → Message → Type 0
IsLive now m = is_expired now m ≡ false

swept-IsLive : (now : ℕ) (t : Messages) → Every (IsLive now) (discard (is_expired now) t)
unfolding discard
swept-IsLive now [] = tt
swept-IsLive now (m ∷ ms) = elim (Bool-cases (is_expired now m)) [
  | inl e ↦ rw e (swept-IsLive now ms)
  | inr e ↦ rw e (e, swept-IsLive now ms)
]

first-discard_live :
    (now : ℕ) (key : String) (m : Message) (t : Messages)
    → first_row (is_message key) t ≡ some m
    → is_expired now m ≡ false
    → first_row (is_message key) (discard (is_expired now) t) ≡ some m
unfolding first_row discard
first-discard_live now key m [] found live = cc
first-discard_live now key m (n ∷ ns) found live = ground (arith, first-discard_live now key m ns)

-- The row is past its expiry: it has one, before now.
abbrev pub IsPast : ℕ → Message → Type 0
IsPast now m = (at : ℕ) × (m.expires_at ≡ some at) × (at < now)

-- The row has no expiry, or one that is not before now.
abbrev pub IsKept : ℕ → Message → Type 0
IsKept now m = (m.expires_at ≡ none) ⊎ ((at : ℕ) × (m.expires_at ≡ some at) × (now ≤ at))

kept-IsLive : (now : ℕ) (m : Message) → IsKept now m → is_expired now m ≡ false
unfolding is_expired
kept-IsLive now m (inl e) = rw e refl
kept-IsLive now m (inr (at, e, le)) = rw e (ground arith)

live-IsKept : (now : ℕ) (m : Message) → is_expired now m ≡ false → IsKept now m
unfolding is_expired
live-IsKept now m e = elim (Option-cases m.expires_at) [
  | inl n ↦ inl n
  | inr (at, x) ↦ inr (at, x, ground arith)
]

past-is_expired : (now : ℕ) (m : Message) → IsPast now m → is_expired now m ≡ true
unfolding is_expired
past-is_expired now m (at, e, lt) = rw e (ground arith)

first-discard_past :
    (p q : Message → Bool) (t : Messages)
    → Every (λ m. q m ≡ true → p m ≡ true) t
    → first_row q (discard p t) ≡ none
unfolding first_row discard
first-discard_past p q [] h = refl
first-discard_past p q (m ∷ ms) h = ground (arith, h.0, first-discard_past p q ms h.1)

-- An expiry sweep deletes exactly the rows that are past their expiry: every row that is left has no
-- expiry or one that is not before now; a row like that is found as before by its id; an id whose
-- rows are all past their expiry finds nothing any more; the count that is returned is the number of
-- rows that went, and a second sweep at the same time deletes nothing.
pub sweep_expired_lem :
    (now : ℕ) (t : Messages)
    → let (removed, left) = sweep_expired now t in
      (removed + length left ≡ length t)
      × Every (IsKept now) left
      × ((key : String) (m : Message)
          → get_message key t ≡ some m
          → IsKept now m
          → get_message key left ≡ some m)
      × ((key : String)
          → Every (λ m. is_message key m ≡ true → IsPast now m) t
          → get_message key left ≡ none)
      × ((sweep_expired now left).0 ≡ 0)
unfolding sweep_expired get_message
sweep_expired_lem now t = (
  discard-count (is_expired now) t,
  Every-weaken (live-IsKept now) (discard (is_expired now) t) (swept-IsLive now t),
  λ key m found live. first-discard_live now key m t found (kept-IsLive now m live),
  λ key past.
      first-discard_past (is_expired now) (is_message key) t
        (Every-weaken (λ m f e. past-is_expired now m (f e)) t past),
  count-discard (is_expired now) t,
)

count-modify_read :
    (c : String) (t : Messages) → count_rows (is_unread c) (modify (is_unread c) mark_read t) ≡ 0
unfolding count_rows modify is_unread
count-modify_read c [] = refl
count-modify_read c (m ∷ ms) = ground (arith, count-modify_read c ms)

count-modify_other :
    (c d : String) (t : Messages)
    → str_eq c d ≡ false
    → count_rows (is_unread d) (modify (is_unread c) mark_read t) ≡ count_rows (is_unread d) t
unfolding count_rows modify is_unread
count-modify_other c d [] n = refl
count-modify_other c d (m ∷ ms) n = ground (
  arith,
  count-modify_other c d ms n,
  eq_iff m.conversation_id c,
  eq_iff m.conversation_id d,
  eq_iff c d,
)

-- Marking a conversation read reports the number of its unread incoming rows, leaves none of them
-- unread, so that a second call reports zero, and changes no elsewhere conversation's number.
pub mark_conversation_read_lem :
    (c d : String) (t : Messages)
    → str_eq c d ≡ false
    → let (marked, left) = mark_conversation_read c t in
      (marked ≡ count_rows (is_unread c) t)
      × (count_rows (is_unread c) left ≡ 0)
      × ((mark_conversation_read c left).0 ≡ 0)
      × (count_rows (is_unread d) left ≡ count_rows (is_unread d) t)
unfolding mark_conversation_read
mark_conversation_read_lem c d t n =
    (refl, count-modify_read c t, count-modify_read c t, count-modify_other c d t n)

is_peer_authored-parts :
    (key c elsewhere : String) (m : Message)
    → str_eq elsewhere key ≡ false
    → is_peer_authored key c m ≡ true
    → is_message elsewhere m ≡ false
unfolding is_peer_authored
is_peer_authored-parts key c elsewhere m n e =
    ground (arith, eq_iff m.id key, eq_iff m.id elsewhere)

count-unkeyed :
    (key : String) (p : Message → Bool)
    → ((m : Message) → p m ≡ true → is_message key m ≡ true)
    → (t : Messages) → exists_row (is_message key) t ≡ false
    → count_rows p t ≡ 0
unfolding count_rows exists_row
count-unkeyed key p only [] n = refl
count-unkeyed key p only (m ∷ ms) n = ground (arith, only m, count-unkeyed key p only ms)

only_key :
    (key c : String) (m : Message) → is_peer_authored key c m ≡ true → is_message key m ≡ true
unfolding is_peer_authored
only_key key c m e = ground arith

count_peer_authored-first :
    (key c : String) (t : Messages)
    → IsKeyed t
    → count_rows (is_peer_authored key c) t
      ≡ elim (get_message key t) [ none ↦ 0 | some m ↦ if is_peer_authored key c m then 1 else 0 ]
unfolding count_rows get_message first_row exists_row
count_peer_authored-first key c [] h = refl
count_peer_authored-first key c (m ∷ ms) h = ground (
  arith,
  eq_iff m.id key,
  count-unkeyed m.id (is_peer_authored key c),
  only_key key c m,
  count-unkeyed key (is_peer_authored key c) (only_key key c) ms,
  count_peer_authored-first key c ms h.1,
)

-- A peer's retraction deletes at most one row: the row with that id, and only if it is an incoming
-- text or image of the peer's own conversation. Every elsewhere row is found as before by its id.
pub delete_peer_authored_lem :
    (key c : String) (t : Messages)
    → IsKeyed t
    → let (removed, left) = delete_peer_authored key c t in
      (removed ≡ elim (get_message key t) [
        | none ↦ 0
        | some m ↦ if is_peer_authored key c m then 1 else 0
      ])
      × (removed + length left ≡ length t)
      × ((elsewhere : String)
          → str_eq elsewhere key ≡ false
          → get_message elsewhere left ≡ get_message elsewhere t)
unfolding delete_peer_authored get_message
delete_peer_authored_lem key c t h = (
  count_peer_authored-first key c t h,
  discard-count (is_peer_authored key c) t,
  λ elsewhere n.
      first-discard_other (is_peer_authored key c) (is_message elsewhere)
        (λ m e. is_peer_authored-parts key c elsewhere m n e) t,
)
