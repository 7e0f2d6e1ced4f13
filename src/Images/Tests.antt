-- ===== src/Images/Tests.antt =====
-- Small images: the chunks have four characters.
use nuco_messenger.ChatLock.State.{Ciphers}
use nuco_messenger.Db.Conversations.{Conversation, new_conversation}
use nuco_messenger.Db.Messages.{insert_message}
use nuco_messenger.Db.Transfers.{
  ImageTransfer, chunk_count, get_transfer, insert_chunk, list_chunk_data,
}
use nuco_messenger.Images.Codec.{
  assemble_and_verify, drop, join_chunks, padding, raw_bytes_of_b64, split_b64, split_from,
}
use nuco_messenger.Images.Receive.{
  ImageTools, Inbox, complete, image_row, receive_chunk, store_chunk,
}
use nuco_messenger.Images.Receiving.{receive_chunk_lem}
use nuco_messenger.Images.Splitting.{FullButLast, join-split_b64}
use nuco_messenger.Prelude.{[], arith, none, refl, some, ◌∷◌, ◌≡◌}
use nuco_messenger.Prelude.Rows.{
  count_rows, exists_row, first_row, insert_by, select, sort_by, take,
}

join-split_b64_example :
    (join_chunks (split_b64 4 (1 ∷ 2 ∷ 3 ∷ 4 ∷ 5 ∷ 6 ∷ [])) ≡ 1 ∷ 2 ∷ 3 ∷ 4 ∷ 5 ∷ 6 ∷ [])
    × FullButLast 4 (split_b64 4 (1 ∷ 2 ∷ 3 ∷ 4 ∷ 5 ∷ 6 ∷ []))
join-split_b64_example = join-split_b64 4 (1 ∷ 2 ∷ 3 ∷ 4 ∷ 5 ∷ 6 ∷ []) (ground arith)

two_chunks : split_b64 4 (1 ∷ 2 ∷ 3 ∷ 4 ∷ 5 ∷ 6 ∷ []) ≡ (1 ∷ 2 ∷ 3 ∷ 4 ∷ []) ∷ (5 ∷ 6 ∷ []) ∷ []
unfolding split_b64 split_from take drop
two_chunks = refl

abbrev toy_tools : ImageTools
toy_tools = record {
  digest = λ b. "digest";
  most = 100;
  text_of = λ b. "text";
  layout_of = λ t. "layout";
}

abbrev toy_ciphers : Ciphers
toy_ciphers = record {
  seal_body = λ seed plain pubkey c key. (plain, "meta");
  open_body = λ b sealing priv pubkey c key. some b;
  wrap_code = λ seed priv code. code;
  unwrap_code = λ wrapped code. none;
}

abbrev announced_image : ImageTransfer
announced_image = record {
  ref = "i1";
  conversation_id = "ann";
  mime = "image/jpeg";
  width = 1;
  height = 1;
  bytes = 3;
  sha256 = "digest";
  chunks_total = 1;
  sent_at = 10;
  created_at = 11;
}

abbrev waiting : Inbox
waiting = record {
  staging = record { transfers = announced_image ∷ []; chunks = [] };
  messages = [];
}

unfoldable ann_chat : Conversation
unfolding new_conversation
ann_chat = new_conversation "ann" "ann" 60 5

-- The one chunk of an image completes it.
completed_image :
    (receive_chunk toy_tools toy_ciphers 0 50 ann_chat "ann" "i1" 0
      (1 ∷ 2 ∷ 3 ∷ 4 ∷ [])
      waiting).messages
    ≡ image_row toy_tools toy_ciphers 0 50 ann_chat "ann" announced_image (1 ∷ 2 ∷ 3 ∷ 4 ∷ []) ∷ []
unfolding receive_chunk store_chunk complete insert_chunk get_transfer chunk_count list_chunk_data
    assemble_and_verify join_chunks raw_bytes_of_b64 padding insert_message exists_row first_row
    count_rows select sort_by insert_by
completed_image = refl

receive_chunk_lem_example :
    receive_chunk toy_tools toy_ciphers 0 50 ann_chat "eve" "i1" 0 (1 ∷ 2 ∷ 3 ∷ 4 ∷ []) waiting
    ≡ waiting
unfolding get_transfer first_row
receive_chunk_lem_example =
    (receive_chunk_lem toy_tools toy_ciphers 0 50 ann_chat "eve" "i1" 0 (1 ∷ 2 ∷ 3 ∷ 4 ∷ [])
        waiting).1
      announced_image refl refl
