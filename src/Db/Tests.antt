-- ===== src/Db/Tests.antt =====
-- Small tables.
use nuco_messenger.Call.Types.{Direction, incoming, outgoing}
use nuco_messenger.Db.Counts.{
  delete_peer_authored_lem, mark_conversation_read_lem, sweep_expired_lem,
}
use nuco_messenger.Db.Integrity.{
  IsKeyed, IsSound, apply_changes, history-IsSound, inserts, reads, sweeps,
}
use nuco_messenger.Db.Messages.{
  Message, Messages, delete_peer_authored, delivered, get_message, is_peer_authored, is_unread,
  mark_conversation_read, sweep_expired, text,
}
use nuco_messenger.Db.OneEach.{conversation_previews_lem, ids_of}
use nuco_messenger.Db.Previews.{conversation_previews}
use nuco_messenger.Prelude.{
  Option, String, [], false, length, none, refl, some, str_eq, ℕ, ◌+◌, ◌∷◌, ◌≡◌,
}
use nuco_messenger.Prelude.Keys.{IsDistinct}
use nuco_messenger.Prelude.Rows.{count_rows, exists_row, first_row}

abbrev row_of : String → String → Direction → ℕ → Option ℕ → Message
row_of key c d at expiry = record {
  id = key;
  conversation_id = c;
  direction = d;
  kind = text;
  body = some "hi";
  meta = none;
  message_status = delivered;
  sent_at = at;
  expires_at = expiry;
  read = false;
  reply_to_id = none;
  media_meta = none;
}

abbrev three_rows : Messages
three_rows =
    row_of "m1" "ann" incoming 10 (some 500)
    ∷ row_of "m2" "ben" incoming 20 none
    ∷ row_of "m3" "ann" outgoing 30 none
    ∷ []

history-IsSound_example : IsSound (
    apply_changes
      (inserts (row_of "m1" "ann" incoming 10 none)
        ∷ inserts (row_of "m1" "ben" incoming 11 none)
        ∷ reads "ann"
        ∷ sweeps 40
        ∷ [])
      [])
history-IsSound_example =
    history-IsSound
      (inserts (row_of "m1" "ann" incoming 10 none)
        ∷ inserts (row_of "m1" "ben" incoming 11 none)
        ∷ reads "ann"
        ∷ sweeps 40
        ∷ [])
      ((λ e. refl), ((λ e. refl), (tt, (tt, tt))))

sweep_expired_lem_example : (sweep_expired 600 (sweep_expired 600 three_rows).1).0 ≡ 0
sweep_expired_lem_example = (sweep_expired_lem 600 three_rows).4

mark_conversation_read_lem_example :
    let (marked, left) = mark_conversation_read "ann" three_rows in
    (marked ≡ 1)
    × (count_rows (is_unread "ann") left ≡ 0)
    × ((mark_conversation_read "ann" left).0 ≡ 0)
    × (count_rows (is_unread "ben") left ≡ 1)
unfolding count_rows is_unread
mark_conversation_read_lem_example = mark_conversation_read_lem "ann" "ben" three_rows refl

three_keys : IsKeyed three_rows
unfolding exists_row
three_keys = (refl, (refl, (refl, tt)))

delete_peer_authored_lem_example :
    let (removed, left) = delete_peer_authored "m3" "ann" three_rows in
    (removed ≡ 0)
    × (removed + length left ≡ 3)
    × ((key : String) → str_eq key "m3" ≡ false → get_message key left ≡ get_message key three_rows)
unfolding get_message first_row is_peer_authored
delete_peer_authored_lem_example = delete_peer_authored_lem "m3" "ann" three_rows three_keys

conversation_previews_lem_example : IsDistinct (ids_of (conversation_previews three_rows))
conversation_previews_lem_example = (conversation_previews_lem three_rows three_keys).0
