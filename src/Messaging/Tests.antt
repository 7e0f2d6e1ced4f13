-- ===== src/Messaging/Tests.antt =====
-- A world of toys, and a store with one contact.
use nuco_messenger.Db.Contacts.{ContactRow, ContactStatus, get_contact, get_contact_by_handle}
use nuco_messenger.Db.Conversations.{
  Conversation, get_conversation, get_conversation_by_contact, new_conversation,
}
use nuco_messenger.Db.Messages.{Message, get_message, insert_message, sent, text}
use nuco_messenger.Db.Pending.{
  PendingOutbound, is_pending, is_pending_plain, join_handles, list_pending_outbound,
}
use nuco_messenger.Images.Receive.{expiry_for}
use nuco_messenger.Messaging.Confirms.{confirm_verification, flush_deferred_confirm}
use nuco_messenger.Messaging.Gate.{envelope_for, may_send, send_content, wake_hint_for}
use nuco_messenger.Messaging.Gated.{acks-receive_envelope, shown, shown-receive_envelope}
use nuco_messenger.Messaging.Handshake.{Knows, proof_to}
use nuco_messenger.Messaging.Harmless.{redelivery_changes_nothing}
use nuco_messenger.Messaging.Outcomes.{resend_outcome_lem}
use nuco_messenger.Messaging.Pairing.{IsUnlocked, pair_in_turn}
use nuco_messenger.Messaging.Receiving.{
  Decryption, Envelope, opened, receive_content, receive_envelope, receive_from, receive_text,
  route, undecryptable, whisper, with_conversation,
}
use nuco_messenger.Messaging.Redelivery.{tables}
use nuco_messenger.Messaging.Resending.{handle_of, resend_pending_outbound, resend_row}
use nuco_messenger.Messaging.Sending.{outgoing_row, send_text}
use nuco_messenger.Messaging.Sent.{send_text_lem}
use nuco_messenger.Messaging.Store.{Account, Store, World, drop_error, lookup_error, text_content}
use nuco_messenger.Negotiation.State.{found_on}
use nuco_messenger.Prelude.{Option, String, [], false, map, none, refl, some, true, ℕ, ◌∷◌, ◌≡◌}
use nuco_messenger.Prelude.Keys.{has}
use nuco_messenger.Prelude.Rows.{exists_row, first_row, insert_by, select, sort_by}

abbrev toy_world : World
toy_world = record {
  fresh_id = λ n. "u";
  net = λ e. none;
  card_hash = λ h k s q. h;
  print = λ n. "n";
  trim = λ s. s;
  name_pair = λ a b. a;
  tools = record { digest = λ b. "d"; most = 100; text_of = λ b. "t"; layout_of = λ t. "l" };
  slice_size = 4;
  raw_size = 4;
  chars_of = λ s. [];
  layout_json = λ i. "j";
  parse_media_meta = λ m. none;
  ciphers = record {
    seal_body = λ seed plain pubkey c key. (plain, "meta");
    open_body = λ b sealing priv pubkey c key. some b;
    wrap_code = λ seed priv code. code;
    unwrap_code = λ wrapped code. none;
  };
  collates = λ a b. true;
}

unfoldable contact_ann : ContactStatus → Option ℕ → ContactRow
contact_ann status at = record {
  id = "c1";
  handle = "ann";
  display_name = "Ann";
  identity_pubkey = "k";
  fingerprint = none;
  safety_number = none;
  status = status;
  verified_at = at;
  local_confirmed_at = at;
  peer_confirmed_at = at;
  card_spk_pub = some "s";
  card_kyber_pub = some "q";
  is_blocked = false;
  is_muted = false;
  name_sync_pending = false;
  created_at = 1;
}

abbrev chat_of_ann : Conversation
chat_of_ann = new_conversation "c1" "c1" 60 5

unfoldable knowing : ContactRow → Store
knowing c = record {
  is_unlocked = true;
  account = none;
  contacts = c ∷ [];
  conversations = chat_of_ann ∷ [];
  messages = [];
  staging = record { transfers = []; chunks = [] };
  sessions = [];
  sent_this_run = [];
  confirm_errors = [];
  wire = [];
  acks = [];
  rung = [];
  draws = 0;
}

unfoldable store_verified : Store
unfolding knowing contact_ann
store_verified = knowing (contact_ann ContactStatus.verified (some 2))

unfoldable store_unverified : Store
unfolding knowing contact_ann
store_unverified = knowing (contact_ann ContactStatus.connected none)

abbrev first_text : Envelope
first_text = record { id = "e1"; message_type = whisper; sent_at = 9 }

abbrev hello : Decryption
hello = opened (text_content "hello" none)

acks-receive_envelope_example :
    (receive_envelope toy_world "ann" first_text undecryptable 10 store_verified).acks ≡ []
unfolding store_verified knowing contact_ann get_contact_by_handle first_row
acks-receive_envelope_example =
    acks-receive_envelope toy_world "ann" first_text undecryptable 10 store_verified

shown-receive_envelope_example :
    shown (receive_envelope toy_world "ann" first_text hello 10 store_unverified)
    ≡ shown store_unverified
unfolding store_unverified knowing contact_ann get_contact_by_handle first_row
shown-receive_envelope_example =
    shown-receive_envelope toy_world "ann" first_text hello 10 store_unverified refl

-- The text is there after its first delivery.
text_arrives :
    map
      (λ (m : Message). m.id)
      (receive_envelope toy_world "ann" first_text hello 10 store_verified).messages
    ≡ "e1" ∷ []
unfolding store_verified knowing contact_ann get_contact_by_handle first_row receive_envelope
    receive_from receive_content flush_deferred_confirm route with_conversation receive_text
    found_on expiry_for new_conversation insert_message get_conversation get_conversation_by_contact
    get_message exists_row lookup_error drop_error
text_arrives = refl

redelivery_changes_nothing_example :
    let once = receive_envelope toy_world "ann" first_text hello 10 store_verified in
    tables (receive_envelope toy_world "ann" first_text hello 20 once) ≡ tables once
unfolding store_verified knowing contact_ann get_contact_by_handle first_row new_conversation
    get_conversation
redelivery_changes_nothing_example =
    redelivery_changes_nothing toy_world "ann" first_text hello 10 20 store_verified
      (contact_ann ContactStatus.verified (some 2)) chat_of_ann refl refl

abbrev account_of : String → Account
account_of h = record {
  handle = h;
  identity_key = "k";
  spk_pub = "s";
  kyber_pub = "q";
  display_name = h;
}

-- A contact as a scan of its card leaves it.
unfoldable scanned : String → ContactRow
unfolding contact_ann
scanned h = record (contact_ann ContactStatus.connected none) { handle = h }

unfoldable device_with : String → String → Store
unfolding knowing scanned
device_with own peer = record (knowing (scanned peer)) {
  account = some (account_of own);
  sessions = peer ∷ [];
}

ann-Knows : Knows (account_of "ann") (scanned "ben") (device_with "ann" "ben")
unfolding device_with knowing scanned contact_ann get_contact_by_handle first_row has
ann-Knows = record { owner = refl; is_open = refl; row = refl; free = refl; session = refl }

ben-Knows : Knows (account_of "ben") (scanned "ann") (device_with "ben" "ann")
unfolding device_with knowing scanned contact_ann get_contact_by_handle first_row has
ben-Knows = record { owner = refl; is_open = refl; row = refl; free = refl; session = refl }

abbrev second_text : Envelope
second_text = record { id = "e2"; message_type = whisper; sent_at = 12 }

pair_in_turn_example : IsUnlocked "ben" (
    receive_envelope toy_world "ben" first_text
      (opened (proof_to toy_world (account_of "ann")))
      9
      (confirm_verification toy_world "n" 6 (scanned "ben") (device_with "ann" "ben")))
unfolding device_with knowing scanned contact_ann has
pair_in_turn_example =
    (pair_in_turn toy_world (account_of "ann") (account_of "ben") (scanned "ben") (scanned "ann")
      (device_with "ann" "ben") (device_with "ben" "ann") ann-Knows ben-Knows
      (refl, refl, refl, refl) (refl, refl, refl, refl) (refl, refl, refl) (refl, refl, refl) "n"
      "n" second_text first_text 6 7 8 9).2

send_text_lem_example :
    (send_text toy_world "c1" "ann" "hi" 60 none 20 store_verified).wire
    ≡ envelope_for toy_world 20 "ann" (text_content "hi" none) "u" ∷ []
unfolding store_verified knowing contact_ann exists_row may_send get_contact_by_handle first_row
    wake_hint_for
send_text_lem_example = (send_text_lem toy_world "c1" "ann" "hi" 60 none 20 store_verified refl).2

-- An app kill left a text of ann's chat behind.
unfoldable interrupted : Store
unfolding store_verified
interrupted = record store_verified {
  messages = outgoing_row "m1" "c1" text "hi" none none none 0 5 ∷ [];
}

one_listed :
    map
      (λ (p : PendingOutbound). p.handle)
      (list_pending_outbound (handle_of interrupted) interrupted.messages)
    ≡ "ann" ∷ []
unfolding interrupted store_verified knowing contact_ann list_pending_outbound handle_of get_contact
    first_row join_handles sort_by insert_by select is_pending_plain is_pending expiry_for
one_listed = refl

resend_outcome_lem_example :
    let left = outgoing_row "m1" "c1" text "hi" none none none 0 5 in
    get_message "m1" (resend_pending_outbound toy_world 9 interrupted).messages
    ≡ some (record left { message_status = sent })
unfolding interrupted store_verified knowing contact_ann get_message first_row is_pending_plain
    is_pending handle_of get_contact exists_row resend_row send_content may_send
    get_contact_by_handle expiry_for
resend_outcome_lem_example =
    (resend_outcome_lem toy_world 9 interrupted
        (outgoing_row "m1" "c1" text "hi" none none none 0 5) "ann" refl (refl, tt) refl refl
        refl).0
      refl
