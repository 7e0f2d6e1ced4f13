-- ===== src/Prelude/Rows.antt =====
-- The rows of a table, in the order of their insertion, and what a query does to them.
use nuco_messenger.Prelude.{
  Bool, List, Option, [], arith, false, if_rule, if◌then◌else◌, leb, length, none, refl, some, suc,
  true, zero, ℕ, ◌+◌, ◌∷◌, ◌≡◌,
}

module _ {ℓ} {A : Type ℓ} where
  -- `SELECT ... WHERE`.
  unfoldable pub select : (A → Bool) → List A → List A
  select p [] = []
  select p (x ∷ xs) = if p x then x ∷ select p xs else select p xs

  -- `DELETE ... WHERE`.
  unfoldable pub discard : (A → Bool) → List A → List A
  discard p [] = []
  discard p (x ∷ xs) = if p x then discard p xs else x ∷ discard p xs

  -- `UPDATE ... WHERE`.
  unfoldable pub modify : (A → Bool) → (A → A) → List A → List A
  modify p f [] = []
  modify p f (x ∷ xs) = (if p x then f x else x) ∷ modify p f xs

  -- `SELECT COUNT(*) ... WHERE`.
  unfoldable pub count_rows : (A → Bool) → List A → ℕ
  count_rows p [] = 0
  count_rows p (x ∷ xs) = if p x then suc (count_rows p xs) else count_rows p xs

  -- The first row of the result.
  unfoldable pub first_row : (A → Bool) → List A → Option A
  first_row p [] = none
  first_row p (x ∷ xs) = if p x then some x else first_row p xs

  -- `LIMIT`.
  unfoldable pub take : ℕ → List A → List A
  take zero xs = []
  take (suc n) [] = []
  take (suc n) (x ∷ xs) = x ∷ take n xs

  unfoldable pub insert_by : (A → ℕ) → A → List A → List A
  insert_by key x [] = x ∷ []
  insert_by key x (y ∷ ys) = if leb (key x) (key y) then x ∷ y ∷ ys else y ∷ insert_by key x ys

  -- `ORDER BY key`, equal keys in the order of insertion.
  unfoldable pub sort_by : (A → ℕ) → List A → List A
  unfolding insert_by
  sort_by key [] = []
  sort_by key (x ∷ xs) = insert_by key x (sort_by key xs)

  abbrev pub Every {κ} : (A → Type κ) → List A → Type κ
  Every P [] = Unit {κ}
  Every P (x ∷ xs) = P x × Every P xs

  -- Some row meets the test.
  unfoldable pub exists_row : (A → Bool) → List A → Bool
  exists_row p [] = false
  exists_row p (x ∷ xs) = if p x then true else exists_row p xs

  pub discard-count :
      (p : A → Bool) (xs : List A) → count_rows p xs + length (discard p xs) ≡ length xs
  unfolding discard count_rows
  discard-count p [] = refl
  discard-count p (x ∷ xs) = ground (arith, discard-count p xs)

  pub first-discard : (p : A → Bool) (xs : List A) → first_row p (discard p xs) ≡ none
  unfolding discard first_row
  first-discard p [] = refl
  first-discard p (x ∷ xs) = ground (arith, first-discard p xs)

  pub count-discard : (p : A → Bool) (xs : List A) → count_rows p (discard p xs) ≡ 0
  unfolding discard count_rows
  count-discard p [] = refl
  count-discard p (x ∷ xs) = ground (arith, count-discard p xs)

  -- A test that no discarded row meets counts the same.
  pub count-discard_other :
      (p q : A → Bool)
      → ((x : A) → p x ≡ true → q x ≡ false)
      → (xs : List A) → count_rows q (discard p xs) ≡ count_rows q xs
  unfolding discard count_rows
  count-discard_other p q apart [] = refl
  count-discard_other p q apart (x ∷ xs) = ground (arith, apart x, count-discard_other p q apart xs)

  -- Rows that do not meet the test are found as before.
  pub first-discard_other :
      (p q : A → Bool)
      → ((x : A) → p x ≡ true → q x ≡ false)
      → (xs : List A) → first_row q (discard p xs) ≡ first_row q xs
  unfolding discard first_row
  first-discard_other p q apart [] = refl
  first-discard_other p q apart (x ∷ xs) = ground (arith, apart x, first-discard_other p q apart xs)

  pub discard-Every {κ} :
      (P : A → Type κ) (p : A → Bool) (xs : List A) → Every P xs → Every P (discard p xs)
  unfolding discard
  discard-Every P p [] h = h
  discard-Every P p (x ∷ xs) (h, hs) =
      if_rule (λ (r : List A). Every P r) (p x) (discard-Every P p xs hs)
        (h, discard-Every P p xs hs)

  pub modify-Every {κ} :
      (P : A → Type κ) (p : A → Bool) (f : A → A)
      → ((x : A) → P x → P (f x))
      → (xs : List A) → Every P xs
      → Every P (modify p f xs)
  unfolding modify
  modify-Every P p f keep [] h = h
  modify-Every P p f keep (x ∷ xs) (h, hs) =
      (if_rule P (p x) (keep x h) h, modify-Every P p f keep xs hs)

  pub length-modify : (p : A → Bool) (f : A → A) (xs : List A) → length (modify p f xs) ≡ length xs
  unfolding modify
  length-modify p f [] = refl
  length-modify p f (x ∷ xs) = ground (arith, length-modify p f xs)

  -- An update of the rows that a test finds, if they still meet it, finds the updated row.
  pub first-modify :
      (p : A → Bool) (f : A → A)
      → ((x : A) → p (f x) ≡ p x)
      → (xs : List A) (x : A) → first_row p xs ≡ some x
      → first_row p (modify p f xs) ≡ some (f x)
  unfolding first_row modify
  first-modify p f same [] x e = cc
  first-modify p f same (y ∷ ys) x e = ground (arith, same y, first-modify p f same ys x)
