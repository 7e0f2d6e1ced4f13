-- ===== src/Db/Transfers.antt =====
-- src/db/repos/image-transfers.ts: the images that are on their way in, and their chunks. The data of a
-- chunk is the list of the characters of its base64 text.
use nuco_messenger.Prelude.{
  Bool, List, Option, String, [], if◌then◌else◌, ltb, map, str_eq, ℕ, ◌&&◌, ◌++◌, ◌==◌, ◌∷◌,
}
use nuco_messenger.Prelude.Rows.{count_rows, discard, exists_row, first_row, select, sort_by}

pub record ImageTransfer : Type 0 where
  pub ref : String
  pub conversation_id : String
  pub mime : String
  pub width : ℕ
  pub height : ℕ
  pub bytes : ℕ
  pub sha256 : String
  pub chunks_total : ℕ
  pub sent_at : ℕ
  pub created_at : ℕ

pub record ImageChunk : Type 0 where
  pub ref : String
  pub seq : ℕ
  pub slice_data : List ℕ

pub record Staging : Type 0 where
  pub transfers : List ImageTransfer
  pub chunks : List ImageChunk

abbrev pub is_transfer : String → ImageTransfer → Bool
is_transfer key t = str_eq t.ref key

abbrev pub is_chunk_of : String → ImageChunk → Bool
is_chunk_of key k = str_eq k.ref key

-- `INSERT OR IGNORE` on the ref.
unfoldable pub create_transfer : ImageTransfer → Staging → Staging
create_transfer t s =
    if exists_row (is_transfer t.ref) s.transfers
    then s
    else record s { transfers = s.transfers ++ t ∷ [] }

unfoldable pub get_transfer : String → Staging → Option ImageTransfer
get_transfer key s = first_row (is_transfer key) s.transfers

-- `INSERT OR IGNORE` on the ref and the number.
unfoldable pub insert_chunk : String → ℕ → List ℕ → Staging → Staging
insert_chunk key n body s =
    if exists_row (λ k. is_chunk_of key k && (k.seq == n)) s.chunks
    then s
    else record s { chunks = s.chunks ++ record { ref = key; seq = n; slice_data = body } ∷ [] }

unfoldable pub chunk_count : String → Staging → ℕ
chunk_count key s = count_rows (is_chunk_of key) s.chunks

unfoldable pub list_chunk_data : String → Staging → List (List ℕ)
list_chunk_data key s =
    map (λ (k : ImageChunk). k.slice_data)
      (sort_by (λ (k : ImageChunk). k.seq) (select (is_chunk_of key) s.chunks))

-- The chunks of the deleted transfers go with them.
unfoldable pub drop_transfers : (ImageTransfer → Bool) → Staging → Staging
drop_transfers p s = record {
  transfers = discard p s.transfers;
  chunks =
      discard (λ (k : ImageChunk). exists_row (λ t. p t && is_transfer k.ref t) s.transfers)
        s.chunks;
}

unfoldable pub delete_transfer : String → Staging → Staging
unfolding drop_transfers
delete_transfer key s = drop_transfers (is_transfer key) s

unfoldable pub delete_conversation_transfer : String → String → Staging → Staging
unfolding drop_transfers
delete_conversation_transfer key c s =
    drop_transfers (λ t. is_transfer key t && str_eq t.conversation_id c) s

pub record ActiveTransfer : Type 0 where
  pub transfer : ImageTransfer
  pub received : ℕ

unfoldable pub list_active_transfers : String → Staging → List ActiveTransfer
unfolding chunk_count
list_active_transfers c s =
    map (λ (t : ImageTransfer). record { transfer = t; received = chunk_count t.ref s })
      (sort_by (λ (t : ImageTransfer). t.sent_at)
        (select (λ t. str_eq t.conversation_id c) s.transfers))

-- `sweepStaleTransfers`, with the number of transfers that it deletes.
unfoldable pub sweep_stale_transfers : ℕ → Staging → ℕ × Staging
unfolding drop_transfers
sweep_stale_transfers cutoff s = (
  count_rows (λ (t : ImageTransfer). ltb t.created_at cutoff) s.transfers,
  drop_transfers (λ t. ltb t.created_at cutoff) s,
)

unfoldable pub purge_transfers : String → Staging → Staging
unfolding drop_transfers
purge_transfers c s = drop_transfers (λ t. str_eq t.conversation_id c) s
