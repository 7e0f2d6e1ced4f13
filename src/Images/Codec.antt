-- ===== src/Images/Codec.antt =====
-- src/services/image-codec.ts: an image's base64 text as chunks. A text is the list of its characters.
-- The sizes of the protocol package are arguments, and so is the digest.
use nuco_messenger.Prelude.{
  Bool, List, Option, String, [], false, if◌then◌else◌, leb, length, ltb, none, some, str_eq, suc,
  zero, ℕ, ◌%◌, ◌&&◌, ◌*◌, ◌++◌, ◌+◌, ◌-◌, ◌/◌, ◌==◌, ◌∷◌,
}
use nuco_messenger.Prelude.Rows.{take}

unfoldable pub drop {ℓ} : {A : Type ℓ} → ℕ → List A → List A
drop zero xs = xs
drop (suc n) [] = []
drop (suc n) (x ∷ xs) = drop n xs

-- `slice(i, j)`.
abbrev pub slice {ℓ} : {A : Type ℓ} → ℕ → ℕ → List A → List A
slice i j xs = take (j - i) (drop i xs)

-- The loop of `splitB64` from index `i`; `size` is IMAGE_CHUNK_DATA_B64_MAX.
unfoldable pub split_from : ℕ → ℕ → ℕ → List ℕ → List (List ℕ)
unfolding take drop
split_from zero size i body = []
split_from (suc fuel) size i body =
    let rest = split_from fuel size (i + size) body in
    if ltb i (length body) then slice i (i + size) body ∷ rest else []

-- `splitB64`, with a round for every character.
unfoldable pub split_b64 : ℕ → List ℕ → List (List ℕ)
unfolding split_from
split_b64 size body = split_from (length body) size 0 body

-- `join('')`.
unfoldable pub join_chunks : List (List ℕ) → List ℕ
join_chunks [] = []
join_chunks (x ∷ xs) = x ++ join_chunks xs

-- The code of '='.
abbrev pad : ℕ
pad = 61

abbrev is_pad : Option ℕ → Bool
is_pad none = false
is_pad (some n) = n == pad

abbrev last_of : List ℕ → Option ℕ
last_of [] = none
last_of (x ∷ []) = some x
last_of (x ∷ y ∷ ys) = last_of (y ∷ ys)

abbrev before_last : List ℕ → Option ℕ
before_last [] = none
before_last (x ∷ []) = none
before_last (x ∷ y ∷ []) = some x
before_last (x ∷ y ∷ z ∷ zs) = before_last (y ∷ z ∷ zs)

unfoldable pub padding : List ℕ → ℕ
padding b = if is_pad (last_of b) then (if is_pad (before_last b) then 2 else 1) else 0

-- `rawBytesOfB64`; none for its -1.
unfoldable pub raw_bytes_of_b64 : List ℕ → Option ℕ
unfolding padding
raw_bytes_of_b64 b = if length b % 4 == 0 then some (length b / 4 * 3 - padding b) else none

-- `chunkCountFor`; `raw` is IMAGE_CHUNK_RAW_BYTES.
unfoldable pub chunk_count_for : ℕ → ℕ → ℕ
chunk_count_for raw bytes = (bytes + (raw - 1)) / raw

abbrev pub holds_size : Option ℕ → ℕ → Bool
holds_size none n = false
holds_size (some m) n = m == n

-- `assembleAndVerify`: none where it throws. `most` is IMAGE_MAX_BYTES.
unfoldable pub assemble_and_verify :
    (List ℕ → String) → ℕ → List (List ℕ) → ℕ → String → Option (List ℕ)
unfolding raw_bytes_of_b64 join_chunks
assemble_and_verify digest most chunks expected_bytes expected_digest =
    let body = join_chunks chunks in
    if holds_size (raw_bytes_of_b64 body) expected_bytes
      && leb 1 expected_bytes
      && leb expected_bytes most
      && str_eq (digest body) expected_digest
    then some body
    else none
