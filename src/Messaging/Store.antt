-- ===== src/Messaging/Store.antt =====
-- What src/services/messaging.ts and src/services/verification.ts work on: the tables, what they keep in
-- memory, and what they hand to the relay and to the call controller.
use nuco_messenger.Call.Types.{CallSignal, Contact}
use nuco_messenger.ChatLock.State.{Ciphers}
use nuco_messenger.Db.Contacts.{Contacts}
use nuco_messenger.Db.Conversations.{Conversations}
use nuco_messenger.Db.Messages.{Messages}
use nuco_messenger.Db.Transfers.{Staging}
use nuco_messenger.Images.Receive.{ImageTools, Inbox}
use nuco_messenger.Negotiation.State.{Control, Device}
use nuco_messenger.Prelude.{
  Bool, List, Option, String, [], if◌then◌else◌, none, some, str_eq, suc, ℕ, ◌∷◌,
}

-- The fields of an image's announcement.
pub record Announcement : Type 0 where
  pub mime : String
  pub width : ℕ
  pub height : ℕ
  pub bytes : ℕ
  pub sha256 : String
  pub chunks : ℕ

-- The content of an envelope, of the protocol package's union.
pub data Content : Type 0 where
  text_content : String → Option String → Content
  image_content : Announcement → Content
  image_chunk : String → ℕ → List ℕ → Content
  control : Control → Content
  call_content : CallSignal → Content
  message_delete : String → Content
  profile_name : String → Content
  verify_confirm : String → Content
  unknown_content : Content

-- `WakeHint`.
pub data WakeHint : Type 0 where
  alert voip silent : WakeHint

-- An envelope that `sendContent` lets through its gate.
pub record Outgoing : Type 0 where
  pub handle : String
  pub content : Content
  pub id : String
  pub sent_at : ℕ
  pub wake : WakeHint

-- A call of `callSignalHandler`.
pub record Ring : Type 0 where
  pub from : Contact
  pub signal : CallSignal
  pub sent_at : ℕ

-- An image as `services/images` prepares it, its body the list of the characters of its base64 text.
pub record PreparedImage : Type 0 where
  pub body : List ℕ
  pub mime : String
  pub width : ℕ
  pub height : ℕ
  pub bytes : ℕ
  pub sha256 : String

-- The own account, as far as its card and its name go.
pub record Account : Type 0 where
  pub handle : String
  pub identity_key : String
  pub spk_pub : String
  pub kyber_pub : String
  pub display_name : String

-- `sessions` is the handles with a Signal session, `sent_this_run` and `confirm_errors` are those of
-- verification.ts. `wire`, `acks` and `rung` are newest first. `draws` counts what was drawn at random.
pub record Store : Type 0 where
  pub is_unlocked : Bool
  pub account : Option Account
  pub contacts : Contacts
  pub conversations : Conversations
  pub messages : Messages
  pub staging : Staging
  pub sessions : List String
  pub sent_this_run : List String
  pub confirm_errors : List (String × String)
  pub wire : List Outgoing
  pub acks : List String
  pub rung : List Ring
  pub draws : ℕ

-- What stands outside: fresh ids, what becomes of an envelope that is handed over (none, or the message
-- of the error), the hash of a card, the printed numbers, names and pairs of names, the digests and
-- layouts of images (`layout_json` prints the layout of an image, and `parseMediaMeta` reads it into one
-- without a body), the sizes of the protocol, and the ciphers of the locked chats.
pub record World : Type 0 where
  pub fresh_id : ℕ → String
  pub net : Outgoing → Option String
  pub card_hash : String → String → String → String → String
  pub print : ℕ → String
  pub trim : String → String
  pub name_pair : String → String → String
  pub tools : ImageTools
  pub slice_size : ℕ
  pub raw_size : ℕ
  pub chars_of : String → List ℕ
  pub layout_json : PreparedImage → String
  pub parse_media_meta : Option String → Option PreparedImage
  pub ciphers : Ciphers
  pub collates : String → String → Bool

-- Code of the negotiations, run on the tables of the store.
abbrev pub device_of : Store → Device
device_of s = record { conversations = s.conversations; messages = s.messages; outbox = [] }

abbrev pub with_device : Store → Device → Store
with_device s d = record s { conversations = d.conversations; messages = d.messages }

abbrev pub on_device : (Device → Device) → Store → Store
on_device f s = with_device s (f (device_of s))

abbrev pub on_inbox : (Inbox → Inbox) → Store → Store
on_inbox f s =
    let i = f (record { staging = s.staging; messages = s.messages }) in
    record s { staging = i.staging; messages = i.messages }

-- A map from handles to texts, with `set` and `delete`.
unfoldable pub lookup_error : String → List (String × String) → Option String
lookup_error h [] = none
lookup_error h ((k, v) ∷ m) = if str_eq k h then some v else lookup_error h m

unfoldable pub drop_error : String → List (String × String) → List (String × String)
drop_error h [] = []
drop_error h ((k, v) ∷ m) = if str_eq k h then drop_error h m else (k, v) ∷ drop_error h m

-- `Crypto.randomUUID()`.
abbrev pub draw : World → Store → String × Store
draw w s = (w.fresh_id s.draws, record s { draws = suc s.draws })
