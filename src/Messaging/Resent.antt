-- ===== src/Messaging/Resent.antt =====
-- `resendPendingOutbound` of src/services/messaging.ts: what an app kill left behind comes to an end.
use nuco_messenger.Call.Types.{Direction, incoming, outgoing}
use nuco_messenger.Db.Contacts.{Contacts}
use nuco_messenger.Db.Messages.{Message, MessageKind, Messages, image, update_message_status}
use nuco_messenger.Db.Pending.{
  PendingOutbound, is_outbound_sending, is_pending, is_pending_plain, join_handles,
  list_pending_outbound,
}
use nuco_messenger.Images.Codec.{split_b64}
use nuco_messenger.Messaging.Gate.{send_content}
use nuco_messenger.Messaging.Resending.{
  body_of, handle_of, resend_pending_outbound, resend_row, resend_rows,
}
use nuco_messenger.Messaging.Sending.{quoted, settle_send, status_after}
use nuco_messenger.Messaging.SendingImages.{
  build_image_meta, chunk_envelope_id, image_of_row, resend_image, send_image_envelopes,
  send_slices,
}
use nuco_messenger.Messaging.Store.{
  Content, PreparedImage, Store, World, image_chunk, image_content, text_content,
}
use nuco_messenger.Prelude.{
  Bool, Bool-cases, List, Option, Option-cases, String, [], ap, arith, eq_refl, false,
  if◌then◌else◌, inl, inr, is_some, none, refl, some, str_eq, subst, suc, sym, true, ℕ, ◌&&◌, ◌∙◌,
  ◌∷◌, ◌≡◌,
}
use nuco_messenger.Prelude.Batches.{Every-weaken, exists-select, exists-sort_by, sort_by-Every}
use nuco_messenger.Prelude.Rows.{Every, exists_row, modify, select, sort_by}

abbrev pub named : String → PendingOutbound → Bool
named k p = str_eq k p.message.id

-- A settled row does not wait for a resend.
settled_row :
    (m : Message) (o : Option String)
    → is_pending_plain (record m { message_status = status_after o }) ≡ false
unfolding is_pending_plain is_pending
settled_row m o = rw (not_sending m.direction o) refl
  where
    not_sending :
        (d : Direction) (o : Option String) → is_outbound_sending d (status_after o) ≡ false
    not_sending outgoing none = refl
    not_sending outgoing (some e) = refl
    not_sending incoming o = refl

module _ (h : String → Option String) where
  -- A row that the query lists has a name in the list.
  unfoldable pub Left : List PendingOutbound → Message → Type 0
  Left ps m =
      is_pending_plain m ≡ true
      → is_some (h m.conversation_id) ≡ true
      → exists_row (named m.id) ps ≡ true

  settles-Left :
      (p : PendingOutbound) (ps : List PendingOutbound) (o : Option String) (t : Messages)
      → Every (Left (p ∷ ps)) t
      → Every (Left ps) (update_message_status p.message.id (status_after o) t)
  unfolding update_message_status modify exists_row Left
  settles-Left p ps o [] l = tt
  settles-Left p ps o (m ∷ ms) l = elim (Bool-cases (str_eq m.id p.message.id)) [
    | inl e ↦ rw e (λ w _. cc (w, settled_row m o), settles-Left p ps o ms l.1)
    | inr e ↦ rw e (λ w j. ground (arith, l.0 w j, e), settles-Left p ps o ms l.1)
  ]

  exists-join :
      (k : String) (ms : Messages)
      → exists_row (named k) (join_handles h ms)
        ≡ exists_row (λ m. is_some (h m.conversation_id) && str_eq k m.id) ms
  unfolding exists_row join_handles
  exists-join k [] = refl
  exists-join k (m ∷ ms) = elim (Option-cases (h m.conversation_id)) [
    | inl e ↦ rw (e, join_handles) (exists-join k ms)
    | inr (a, e) ↦
        rw (e, join_handles) (ap (λ b. if str_eq k m.id then true else b) (exists-join k ms))
  ]

  -- Nothing is listed once no row is left.
  nothing_listed :
      (ms : Messages)
      → Every (λ m. is_some (h m.conversation_id) ≡ false) ms
      → join_handles h ms ≡ []
  unfolding join_handles
  nothing_listed [] e = refl
  nothing_listed (m ∷ ms) e = ground (arith, e.0, nothing_listed ms e.1)

  row_named :
      (t : Messages)
      → Every
          (λ m.
            is_pending_plain m ≡ true
            → is_some (h m.conversation_id) ≡ true
            → exists_row
                (λ n. is_pending_plain n && (is_some (h n.conversation_id) && str_eq m.id n.id))
                t
              ≡ true)
          t
  unfolding exists_row
  row_named [] = tt
  row_named (m ∷ ms) = (
    λ w j. ground (arith, w, j, eq_refl m.id),
    Every-weaken (λ n f w j. ground (arith, f w j)) ms (row_named ms),
  )

  pub listed-Left : (t : Messages) → Every (Left (list_pending_outbound h t)) t
  unfolding list_pending_outbound Left
  listed-Left t =
      let rows = select is_pending_plain t in
      Every-weaken
        (λ m f w j.
          exists-join m.id (sort_by (λ m. m.sent_at) rows)
          ∙ exists-sort_by (λ n. is_some (h n.conversation_id) && str_eq m.id n.id) (λ m. m.sent_at)
              rows
          ∙ exists-select (λ n. is_some (h n.conversation_id) && str_eq m.id n.id) is_pending_plain
              t
          ∙ f w j)
        t (row_named t)

  unlisted :
      (t : Messages)
      → Every (Left []) t
      → Every (λ m. is_some (h m.conversation_id) ≡ false) (select is_pending_plain t)
  unfolding select Left exists_row
  unlisted [] l = tt
  unlisted (m ∷ ms) l = elim (Bool-cases (is_pending_plain m)) [
    | inl e ↦ rw e (ground (arith, l.0 e), unlisted ms l.1)
    | inr e ↦ rw e (unlisted ms l.1)
  ]

  none-Left : (t : Messages) → Every (Left []) t → list_pending_outbound h t ≡ []
  unfolding list_pending_outbound
  none-Left t l = nothing_listed (sort_by (λ m. m.sent_at) (select is_pending_plain t)) (
      sort_by-Every (λ m. is_some (h m.conversation_id) ≡ false) (λ m. m.sent_at)
        (select is_pending_plain t) (unlisted t l))

-- A send leaves the tables alone.
abbrev pub Kept : Store → Store → Type 0
Kept s d = (d.messages ≡ s.messages) × (d.contacts ≡ s.contacts)

module _ (w : World) where
  pub send_content-Kept :
      (handle : String) (content : Content) (key : String) (now : ℕ) (s : Store)
      → Kept s (send_content w now handle content key s).0
  unfolding send_content
  send_content-Kept handle content key now s = ground arith

  send_slices-Kept :
      (handle key : String) (n : ℕ) (pieces : List (List ℕ)) (now : ℕ) (s : Store)
      → Kept s (send_slices w handle key n pieces now s).0
  unfolding send_slices
  send_slices-Kept handle key n [] now s = (refl, refl)
  send_slices-Kept handle key n (piece ∷ pieces) now s =
      let sent_one =
        send_content w now handle (image_chunk key n piece) (chunk_envelope_id w key n) s in
      let (ms, cs) =
        send_content-Kept handle (image_chunk key n piece) (chunk_envelope_id w key n) now s in
      elim (Option-cases sent_one.1) [
        | inl e ↦
            let (ms2, cs2) = send_slices-Kept handle key (suc n) pieces now sent_one.0 in
            rw (send_slices, e) (ms2 ∙ ms, cs2 ∙ cs)
        | inr (x, e) ↦ rw (send_slices, e) (ms, cs)
      ]

  send_image_envelopes-Kept :
      (handle key : String) (p : PreparedImage) (now : ℕ) (s : Store)
      → Kept s (send_image_envelopes w handle key p now s).0
  unfolding send_image_envelopes
  send_image_envelopes-Kept handle key p now s =
      let first = image_content (build_image_meta w.raw_size p) in
      let announced = send_content w now handle first key s in
      let (ms, cs) = send_content-Kept handle first key now s in
      elim (Option-cases announced.1) [
        | inl e ↦
            let (ms2, cs2) =
              send_slices-Kept handle key 0 (split_b64 w.slice_size p.body) now announced.0 in
            rw (send_image_envelopes, e) (ms2 ∙ ms, cs2 ∙ cs)
        | inr (x, e) ↦ rw (send_image_envelopes, e) (ms, cs)
      ]

  pub resend_row-Kept :
      (handle key : String) (kind : MessageKind) (body : String) (reply layout : Option String)
      (now : ℕ) (s : Store)
      → Kept s (resend_row w handle key kind body reply layout now s).0
  unfolding resend_row resend_image
  resend_row-Kept handle key image body reply layout now s =
      elim (Option-cases (image_of_row w (w.chars_of body) layout)) [
        | inl e ↦ rw (resend_row, resend_image, e) (refl, refl)
        | inr (p, e) ↦
            rw (resend_row, resend_image, e) (send_image_envelopes-Kept handle key p now s)
      ]
  resend_row-Kept handle key _ body reply layout now s =
      send_content-Kept handle (text_content body (quoted reply)) key now s

  resend_rows-Left :
      (h : String → Option String) (ps : List PendingOutbound) (now : ℕ) (s : Store)
      → Every (Left h ps) s.messages
      → let d = resend_rows w ps now s in Every (Left h []) d.messages × (d.contacts ≡ s.contacts)
  unfolding resend_rows settle_send
  resend_rows-Left h [] now s l = (l, refl)
  resend_rows-Left h (p ∷ ps) now s l =
      let m = p.message in
      let sent_one =
        resend_row w p.handle m.id m.kind (body_of w m) m.reply_to_id m.media_meta now s in
      let (ms, cs) =
        resend_row-Kept p.handle m.id m.kind (body_of w m) m.reply_to_id m.media_meta now s in
      let (left, kept) = resend_rows-Left h ps now (settle_send m.id sent_one.1 sent_one.0) (
        subst (λ t. Every (Left h ps) (update_message_status m.id (status_after sent_one.1) t))
          (sym ms) (settles-Left h p ps sent_one.1 s.messages l)) in
      (left, kept ∙ cs)

  -- While the app is unlocked, resendPendingOutbound leaves no message to be resent, whatever becomes of
  -- its sends.
  pub resend_pending_outbound_lem :
      (now : ℕ) (s : Store)
      → s.is_unlocked ≡ true
      → let d = resend_pending_outbound w now s in
        list_pending_outbound (handle_of d) d.messages ≡ []
  unfolding resend_pending_outbound handle_of
  resend_pending_outbound_lem now s u =
      let h = handle_of s in
      let rows = list_pending_outbound h s.messages in
      let (left, kept) = resend_rows-Left h rows now s (listed-Left h s.messages) in
      let e : resend_pending_outbound w now s ≡ resend_rows w rows now s = ground (arith, u) in
      let same = ap (λ (t : Contacts). handle_of (record s { contacts = t })) kept in
      subst (λ (d : Store). list_pending_outbound (handle_of d) d.messages ≡ []) (sym e)
        (ap (λ f. list_pending_outbound f (resend_rows w rows now s).messages) same
          ∙ none-Left h (resend_rows w rows now s).messages left)
