-- ===== src/Db/Newest.antt =====
-- The rows that the previews of src/db/repos/messages.ts are made of.
use nuco_messenger.Db.Integrity.{IsKeyed}
use nuco_messenger.Db.Messages.{
  Message, MessageKind, Messages, get_message, image, in_conversation, is_inbound, is_message,
  is_unread,
}
use nuco_messenger.Db.Previews.{
  ConversationPreview, conversation_previews, insert_newest, is_latest, latest, newest_first,
  preview_of, shown_body,
}
use nuco_messenger.Prelude.{
  Bool-cases, List, Option, Option-cases, String, [], ap, arith, eq_iff, eq_refl, false, if_rule,
  inl, inr, leb, ltb, map, none, not, refl, some, str_eq, subst, sym, true, ℕ, ◌&&◌, ◌∙◌, ◌∷◌, ◌≡◌,
  ◌≢◌, ◌≤◌, ◌⊎◌,
}
use nuco_messenger.Prelude.Rows.{Every, count_rows, exists_row, first_row, select}

pub latest-in_conversation :
    (d : String) (n : Message) (t : Messages) → latest d t ≡ some n → in_conversation d n ≡ true
unfolding latest
latest-in_conversation d n [] l = cc
latest-in_conversation d n (m ∷ ms) l = ground (arith, latest-in_conversation d n ms)

-- A row of the conversation is not newer than the latest.
abbrev pub NotNewer : String → ℕ → Message → Type 0
NotNewer d at m = in_conversation d m ≡ true → m.sent_at ≤ at

Every-raise :
    (d : String) (low high : ℕ) (t : Messages)
    → low ≤ high
    → Every (NotNewer d low) t
    → Every (NotNewer d high) t
Every-raise d low high [] le h = h
Every-raise d low high (m ∷ ms) le h =
    ((λ e. omega (arith, h.0 e, le)), Every-raise d low high ms le h.1)

Every-apart : (d : String) (high : ℕ) (t : Messages) → latest d t ≡ none → Every (NotNewer d high) t
unfolding latest
Every-apart d high [] l = tt
Every-apart d high (m ∷ ms) l = (λ e. ground arith, Every-apart d high ms (ground arith))

latest-newest :
    (d : String) (n : Message) (t : Messages) → latest d t ≡ some n → Every (NotNewer d n.sent_at) t
unfolding latest
latest-newest d n [] l = tt
latest-newest d n (m ∷ ms) l = elim (Option-cases (latest d ms)) [
  | inl r ↦ (λ e. ground arith, Every-apart d n.sent_at ms r)
  | inr (k, r) ↦ (
    λ e. ground arith,
    Every-raise d k.sent_at n.sent_at ms (ground arith) (latest-newest d k ms r),
  )
]

latest-step :
    (d : String) (n m : Message) (ms : Messages)
    → latest d (m ∷ ms) ≡ some n
    → (m ≡ n) ⊎ (latest d ms ≡ some n)
unfolding latest
latest-step d n m ms l = elim (Bool-cases (in_conversation d m)) [
  | inr i ↦ inr (ground (arith, l, i))
  | inl i ↦ elim (Option-cases (latest d ms)) [
    | inl r ↦ inl (ground (arith, l, i, r))
    | inr (k, r) ↦ elim (Bool-cases (ltb k.sent_at m.sent_at)) [
      | inl newer ↦ inl (ground (arith, l, i, r, newer))
      | inr older ↦ inr (ground (arith, l, i, r, older))
    ]
  ]
]

latest-Every {κ} :
    (P : Message → Type κ) (d : String) (n : Message) (t : Messages)
    → latest d t ≡ some n
    → Every P t
    → P n
unfolding latest
latest-Every P d n [] l h = cc
latest-Every P d n (m ∷ ms) l h = elim (latest-step d n m ms l) [
  | inl same ↦ subst P same h.0
  | inr later ↦ latest-Every P d n ms later h.1
]

found_behind :
    (m : Message) (t xs : Messages)
    → exists_row (is_message m.id) xs ≡ false
    → Every (λ x. get_message x.id t ≡ some x) xs
    → Every (λ x. get_message x.id (m ∷ t) ≡ some x) xs
unfolding get_message first_row exists_row
found_behind m t [] n h = tt
found_behind m t (x ∷ xs) n h = (
  ground (arith, n, h.0, eq_iff m.id x.id, eq_iff x.id m.id),
  found_behind m t xs (ground (arith, n)) h.1,
)

pub found_by_id : (t : Messages) → IsKeyed t → Every (λ m. get_message m.id t ≡ some m) t
unfolding get_message first_row
found_by_id [] h = tt
found_by_id (m ∷ ms) h = (rw (eq_refl m.id) refl, found_behind m ms ms h.0 (found_by_id ms h.1))

-- The preview shows this row of its conversation, than which no other row of it is newer, and counts the
-- conversation's unread incoming rows; an image's body is not shown.
abbrev pub Previews : Messages → ConversationPreview → Type 0
Previews t p =
    (m : Message) × (get_message m.id t ≡ some m)
    × (m.conversation_id ≡ p.conversation_id)
    × Every (NotNewer p.conversation_id m.sent_at) t
    × (p.sent_at ≡ m.sent_at)
    × (p.direction ≡ m.direction)
    × (p.kind ≡ m.kind)
    × (m.kind ≡ image → p.body ≡ none)
    × (m.kind ≢ image → p.body ≡ m.body)
    × (p.unread
        ≡ count_rows
            (λ x.
              str_eq x.conversation_id p.conversation_id && is_inbound x.direction && not x.read)
            t)

shown-image : (k : MessageKind) (b : Option String) → k ≡ image → shown_body k b ≡ none
shown-image k b e = rw e refl

shown-other : (k : MessageKind) (b : Option String) → k ≢ image → shown_body k b ≡ b
shown-other image b n = absurd (n refl)
shown-other _ b n = refl

pub same_row :
    (n m : Message) (t : Messages)
    → get_message n.id t ≡ some n
    → get_message m.id t ≡ some m
    → n.id ≡ m.id
    → n ≡ m
same_row n m t e f i = some-inj (sym e ∙ ap (λ k. get_message k t) i ∙ f)
  where
    some-inj : {x y : Message} → some x ≡ some y → x ≡ y
    some-inj h = cc h

preview-Previews :
    (m : Message) (t : Messages)
    → IsKeyed t
    → get_message m.id t ≡ some m
    → is_latest t m ≡ true
    → Previews t (preview_of t m)
unfolding preview_of is_latest is_unread
preview-Previews m t keyed own e = elim (Option-cases (latest m.conversation_id t)) [
  | inl r ↦ ground (arith, e, r)
  | inr (n, l) ↦
      let same =
        same_row n m t
          (latest-Every (λ x. get_message x.id t ≡ some x) m.conversation_id n t l
            (found_by_id t keyed))
          own (ground (arith, e, l, eq_iff n.id m.id)) in
      (
        m,
        own,
        refl,
        subst (λ (x : Message). Every (NotNewer m.conversation_id x.sent_at) t) same
            (latest-newest m.conversation_id n t l),
        refl,
        refl,
        refl,
        shown-image m.kind m.body,
        shown-other m.kind m.body,
        refl,
      )
]

insert_newest-Every {κ} :
    (P : ConversationPreview → Type κ) (p : ConversationPreview) (ps : List ConversationPreview)
    → P p
    → Every P ps
    → Every P (insert_newest p ps)
unfolding insert_newest
insert_newest-Every P p [] q h = (q, tt)
insert_newest-Every P p (x ∷ xs) q h =
    if_rule (Every P) (leb x.sent_at p.sent_at) (q, h) (h.0, insert_newest-Every P p xs q h.1)

newest_first-Every {κ} :
    (P : ConversationPreview → Type κ) (ps : List ConversationPreview)
    → Every P ps
    → Every P (newest_first ps)
unfolding newest_first
newest_first-Every P [] h = h
newest_first-Every P (p ∷ ps) h =
    insert_newest-Every P p (newest_first ps) h.0 (newest_first-Every P ps h.1)

chosen-Every :
    (t ms : Messages)
    → IsKeyed t
    → Every (λ m. get_message m.id t ≡ some m) ms
    → Every (Previews t) (map (preview_of t) (select (is_latest t) ms))
unfolding select
chosen-Every t [] keyed h = tt
chosen-Every t (m ∷ ms) keyed h = elim (Bool-cases (is_latest t m)) [
  | inl e ↦ rw e (preview-Previews m t keyed h.0 e, chosen-Every t ms keyed h.1)
  | inr e ↦ rw e (chosen-Every t ms keyed h.1)
]

pub conversation_previews-Every :
    (t : Messages) → IsKeyed t → Every (Previews t) (conversation_previews t)
unfolding conversation_previews
conversation_previews-Every t keyed =
    newest_first-Every (Previews t) (map (preview_of t) (select (is_latest t) t))
      (chosen-Every t t keyed (found_by_id t keyed))
