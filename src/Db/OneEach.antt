-- ===== src/Db/OneEach.antt =====
-- The rows of `conversationPreviews` of src/db/repos/messages.ts against the conversations.
use nuco_messenger.Db.Integrity.{IsKeyed}
use nuco_messenger.Db.Messages.{Message, Messages, in_conversation, is_message}
use nuco_messenger.Db.Newest.{Previews, latest-in_conversation, conversation_previews-Every}
use nuco_messenger.Db.Previews.{
  ConversationPreview, conversation_previews, insert_newest, is_latest, later_row, latest,
  newest_first, preview_of,
}
use nuco_messenger.Prelude.{
  Bool-cases, List, Option-cases, String, [], arith, eq_iff, eq_refl, false, if◌then◌else◌, inl,
  inr, map, refl, some, str_eq, sym, true, ◌∙◌, ◌∷◌, ◌≡◌,
}
use nuco_messenger.Prelude.Keys.{IsDistinct, has}
use nuco_messenger.Prelude.Rows.{Every, exists_row, select}

abbrev pub ids_of : List ConversationPreview → List String
ids_of [] = []
ids_of (p ∷ ps) = p.conversation_id ∷ ids_of ps

has-insert_newest :
    (d : String) (p : ConversationPreview) (ps : List ConversationPreview)
    → has d (ids_of (insert_newest p ps))
      ≡ (if str_eq p.conversation_id d then true else has d (ids_of ps))
unfolding has insert_newest
has-insert_newest d p [] = refl
has-insert_newest d p (q ∷ qs) = ground (arith, has-insert_newest d p qs)

insert_newest-IsDistinct :
    (p : ConversationPreview) (ps : List ConversationPreview)
    → has p.conversation_id (ids_of ps) ≡ false
    → IsDistinct (ids_of ps)
    → IsDistinct (ids_of (insert_newest p ps))
unfolding has insert_newest
insert_newest-IsDistinct p [] n h = (refl, tt)
insert_newest-IsDistinct p (q ∷ qs) n h = ground (
  arith,
  insert_newest-IsDistinct p qs,
  has-insert_newest q.conversation_id p qs,
  eq_iff p.conversation_id q.conversation_id,
  eq_iff q.conversation_id p.conversation_id,
)

has-newest_first :
    (d : String) (ps : List ConversationPreview)
    → has d (ids_of (newest_first ps)) ≡ has d (ids_of ps)
unfolding has newest_first
has-newest_first d [] = refl
has-newest_first d (p ∷ ps) =
    ground (arith, has-newest_first d ps, has-insert_newest d p (newest_first ps))

newest_first-IsDistinct :
    (ps : List ConversationPreview) → IsDistinct (ids_of ps) → IsDistinct (ids_of (newest_first ps))
unfolding newest_first
newest_first-IsDistinct [] h = h
newest_first-IsDistinct (p ∷ ps) h =
    insert_newest-IsDistinct p (newest_first ps) (has-newest_first p.conversation_id ps ∙ h.0)
      (newest_first-IsDistinct ps h.1)

module _ (t : Messages) where
  abbrev chosen : Messages → List String
  chosen ms = ids_of (map (preview_of t) (select (is_latest t) ms))

  latest-names :
      (d : String) (n m : Message)
      → latest d t ≡ some n
      → is_latest t m ≡ true
      → str_eq m.conversation_id d ≡ true
      → is_message n.id m ≡ true
  unfolding is_latest
  latest-names d n m l e c =
      ground (arith, eq_iff m.conversation_id d, eq_iff n.id m.id, eq_refl m.id)

  latest-some :
      (m : Message)
      → is_latest t m ≡ true
      → (n : Message) × (latest m.conversation_id t ≡ some n) × (n.id ≡ m.id)
  unfolding is_latest
  latest-some m e = elim (Option-cases (latest m.conversation_id t)) [
    | inl absent_row ↦ ground arith
    | inr (n, l) ↦ (n, l, ground (arith, eq_iff n.id m.id))
  ]

  chosen-other :
      (d : String) (n : Message) (ms : Messages)
      → latest d t ≡ some n
      → exists_row (is_message n.id) ms ≡ false
      → has d (chosen ms) ≡ false
  unfolding has select exists_row is_latest preview_of
  chosen-other d n [] l e = refl
  chosen-other d n (m ∷ ms) l e = ground (arith, latest-names d n m l, chosen-other d n ms l)

  chosen-IsDistinct : (ms : Messages) → IsKeyed ms → IsDistinct (chosen ms)
  unfolding select is_latest preview_of
  chosen-IsDistinct [] h = tt
  chosen-IsDistinct (m ∷ ms) h = elim (Bool-cases (is_latest t m)) [
    | inl e ↦
        let (n, l, same) = latest-some m e in
        rw e (chosen-other m.conversation_id n ms l (rw same h.0), chosen-IsDistinct ms h.1)
    | inr e ↦ rw e (chosen-IsDistinct ms h.1)
  ]

  chosen-latest :
      (d : String) (n : Message) (ms : Messages)
      → latest d ms ≡ some n
      → is_latest t n ≡ true
      → has d (chosen ms) ≡ true
  unfolding has select latest preview_of
  chosen-latest d n [] l e = cc
  chosen-latest d n (m ∷ ms) l e = ground (arith, chosen-latest d n ms, eq_refl d)

  chosen-none :
      (d : String) (ms : Messages)
      → exists_row (in_conversation d) ms ≡ false
      → has d (chosen ms) ≡ false
  unfolding has select exists_row preview_of
  chosen-none d [] e = refl
  chosen-none d (m ∷ ms) e = ground (arith, chosen-none d ms)

latest-total :
    (d : String) (t : Messages)
    → exists_row (in_conversation d) t ≡ true
    → (n : Message) × (latest d t ≡ some n)
unfolding exists_row latest
latest-total d [] e = cc
latest-total d (m ∷ ms) e = elim (Bool-cases (in_conversation d m)) [
  | inl i ↦ rw i (later_row m (latest d ms), refl)
  | inr i ↦ rw i (latest-total d ms (ground arith))
]

latest-is_latest :
    (d : String) (n : Message) (t : Messages) → latest d t ≡ some n → is_latest t n ≡ true
unfolding is_latest
latest-is_latest d n t l =
    ground (arith, latest-in_conversation d n t l, eq_iff n.conversation_id d, eq_refl n.id)

-- With distinct ids, the previews name every conversation that has a row exactly once, and no other; and
-- each preview shows one of its conversation's rows, than which no other row of it is newer (its time,
-- direction and kind, and its body unless it is an image), with the number of the unread incoming rows.
pub conversation_previews_lem :
    (t : Messages)
    → IsKeyed t
    → IsDistinct (ids_of (conversation_previews t))
      × ((d : String) → has d (ids_of (conversation_previews t)) ≡ exists_row (in_conversation d) t)
      × Every (Previews t) (conversation_previews t)
unfolding conversation_previews
conversation_previews_lem t keyed = (
  newest_first-IsDistinct _ (chosen-IsDistinct t t keyed),
  λ d.
      has-newest_first d _
      ∙ elim (Bool-cases (exists_row (in_conversation d) t))
          as (λ x. has d (chosen t t) ≡ exists_row (in_conversation d) t) [
            | inl e ↦
                let (n, l) = latest-total d t e in
                chosen-latest t d n t l (latest-is_latest d n t l) ∙ sym e
            | inr e ↦ chosen-none t d t e ∙ sym e
          ],
  conversation_previews-Every t keyed,
)
