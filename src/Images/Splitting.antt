-- ===== src/Images/Splitting.antt =====
-- Splitting an image's text and joining its chunks.
use nuco_messenger.Images.Codec.{drop, join_chunks, slice, split_b64, split_from}
use nuco_messenger.Prelude.{
  Bool-cases, List, [], ap, arith, inl, inr, length, ltb, min, refl, subst, suc, sym, zero, ℕ, ◌++◌,
  ◌+◌, ◌-◌, ◌<◌, ◌∙◌, ◌∷◌, ◌≡◌, ◌≤◌,
}
use nuco_messenger.Prelude.Batches.{List-cases}
use nuco_messenger.Prelude.Rows.{take}

same_left : (n : ℕ) → n ≡ 0 + n
same_left n = omega arith

same_suc : (m n : ℕ) → suc (m + n) ≡ suc m + n
same_suc m n = omega arith

module _ {ℓ} {A : Type ℓ} where
  take-drop : (n : ℕ) (xs : List A) → take n xs ++ drop n xs ≡ xs
  unfolding take drop
  take-drop zero xs = refl
  take-drop (suc n) [] = refl
  take-drop (suc n) (x ∷ xs) = ap (λ ys. x ∷ ys) (take-drop n xs)

  drop_nil : (n : ℕ) → drop {A = A} n [] ≡ []
  unfolding drop
  drop_nil zero = refl
  drop_nil (suc n) = refl

  drop-drop : (m n : ℕ) (xs : List A) → drop n (drop m xs) ≡ drop (m + n) xs
  unfolding drop
  drop-drop zero n xs = ap (λ k. drop k xs) (same_left n)
  drop-drop (suc m) n [] = drop_nil n ∙ sym (drop_nil (suc m + n))
  drop-drop (suc m) n (x ∷ xs) = drop-drop m n xs ∙ ap (λ k. drop k (x ∷ xs)) (same_suc m n)

  length-drop : (n : ℕ) (xs : List A) → length (drop n xs) ≡ length xs - n
  unfolding drop
  length-drop zero xs = omega arith
  length-drop (suc n) [] = omega arith
  length-drop (suc n) (x ∷ xs) = omega (arith, length-drop n xs)

  length-take : (n : ℕ) (xs : List A) → length (take n xs) ≡ min n (length xs)
  unfolding take
  length-take zero xs = omega arith
  length-take (suc n) [] = omega arith
  length-take (suc n) (x ∷ xs) = omega (arith, length-take n xs)

  drop_all : (n : ℕ) (xs : List A) → length xs ≤ n → drop n xs ≡ []
  unfolding drop
  drop_all zero [] h = refl
  drop_all zero (x ∷ xs) h = ground arith
  drop_all (suc n) [] h = refl
  drop_all (suc n) (x ∷ xs) h = drop_all n xs (omega (arith, h))

-- Every chunk but the last has the full size, and the last is not empty.
abbrev pub FullButLast : ℕ → List (List ℕ) → Type 0
FullButLast size [] = Unit {0}
FullButLast size (x ∷ []) = (1 ≤ length x) × (length x ≤ size)
FullButLast size (x ∷ y ∷ ys) = (length x ≡ size) × FullButLast size (y ∷ ys)

module _ (size : ℕ) (body : List ℕ) (positive : 0 < size) where
  length-slice : (i : ℕ) → length (slice i (i + size) body) ≡ min ((i + size) - i) (length body - i)
  length-slice i =
      length-take ((i + size) - i) (drop i body) ∙ ap (min ((i + size) - i)) (length-drop i body)

  whole : (i : ℕ) → i + size ≡ i + ((i + size) - i)
  whole i = omega arith

  join-split_from :
      (fuel i : ℕ)
      → length body ≤ i + fuel
      → join_chunks (split_from fuel size i body) ≡ drop i body
  unfolding split_from join_chunks
  join-split_from zero i h = sym (drop_all i body (omega (arith, h)))
  join-split_from (suc fuel) i h = elim (Bool-cases (ltb i (length body))) [
    | inl more ↦
        rw (more, split_from)
          (ap (λ ys. slice i (i + size) body ++ ys)
              (join-split_from fuel (i + size) (omega (arith, h, positive))
                ∙ ap (λ k. drop k body) (whole i)
                ∙ sym (drop-drop i ((i + size) - i) body))
            ∙ take-drop ((i + size) - i) (drop i body))
    | inr over ↦ rw (over, split_from) (sym (drop_all i body (ground arith)))
  ]

  split_from-within :
      (fuel i : ℕ) (x : List ℕ) (xs : List (List ℕ))
      → split_from fuel size i body ≡ x ∷ xs
      → i < length body
  unfolding split_from
  split_from-within zero i x xs e = cc
  split_from-within (suc fuel) i x xs e = elim (Bool-cases (ltb i (length body))) [
    | inl more ↦ ground arith
    | inr over ↦ ground arith
  ]

  split_from-FullButLast : (fuel i : ℕ) → FullButLast size (split_from fuel size i body)
  unfolding split_from
  split_from-FullButLast zero i = tt
  split_from-FullButLast (suc fuel) i = elim (Bool-cases (ltb i (length body))) [
    | inr over ↦ rw (over, split_from) tt
    | inl more ↦ elim (List-cases (split_from fuel size (i + size) body)) [
      | inl e ↦
          rw (more, split_from, e) (ground (arith, length-slice i), ground (arith, length-slice i))
      | inr (y, ys, e) ↦
          rw (more, split_from, e)
            (
              ground (arith, length-slice i, split_from-within fuel (i + size) y ys e),
              subst (FullButLast size) e (split_from-FullButLast fuel (i + size)),
            )
    ]
  ]

drop_zero : {A : Type 0} (xs : List A) → drop 0 xs ≡ xs
unfolding drop
drop_zero xs = refl

-- Splitting an image's text into chunks ends within its fuel and loses nothing: joining the chunks gives
-- the text back, every chunk but the last has exactly the protocol's size, and the last is not empty
-- and not larger.
pub join-split_b64 :
    (size : ℕ) (body : List ℕ)
    → 0 < size
    → (join_chunks (split_b64 size body) ≡ body) × FullButLast size (split_b64 size body)
unfolding split_b64
join-split_b64 size body positive = (
  join-split_from size body positive (length body) 0 (omega arith) ∙ drop_zero body,
  split_from-FullButLast size body positive (length body) 0,
)
