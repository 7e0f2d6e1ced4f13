-- ===== src/Prelude/Batches.antt =====
-- Batches of a query with an order and a limit, and passes that switch a test off row by row.
use nuco_messenger.Prelude.{
  Bool, Bool-cases, List, [], ap, arith, false, if_rule, if◌then◌else◌, inl, inr, leb, length, refl,
  suc, sym, true, zero, ℕ, ◌&&◌, ◌<◌, ◌∙◌, ◌∷◌, ◌≡◌, ◌≤◌, ◌⊎◌,
}
use nuco_messenger.Prelude.Rows.{
  Every, count_rows, exists_row, insert_by, modify, select, sort_by, take,
}

module _ {ℓ} {A : Type ℓ} where
  pub List-cases : (xs : List A) → (xs ≡ []) ⊎ ((x : A) × (ys : List A) × (xs ≡ x ∷ ys))
  List-cases [] = inl refl
  List-cases (x ∷ xs) = inr (x, xs, refl)

  pub Every-weaken {κ μ} :
      {P : A → Type κ} {Q : A → Type μ}
      → ((x : A) → P x → Q x)
      → (xs : List A) → Every P xs
      → Every Q xs
  Every-weaken f [] h = tt
  Every-weaken f (x ∷ xs) h = (f x h.0, Every-weaken f xs h.1)

  pub select-Every {κ} :
      (P : A → Type κ) (p : A → Bool) (xs : List A) → Every P xs → Every P (select p xs)
  unfolding select
  select-Every P p [] h = h
  select-Every P p (x ∷ xs) h =
      if_rule (Every P) (p x) (h.0, select-Every P p xs h.1) (select-Every P p xs h.1)

  insert_by-Every {κ} :
      (P : A → Type κ) (key : A → ℕ) (x : A) (xs : List A)
      → P x
      → Every P xs
      → Every P (insert_by key x xs)
  unfolding insert_by
  insert_by-Every P key x [] p h = (p, tt)
  insert_by-Every P key x (y ∷ ys) p h =
      if_rule (Every P) (leb (key x) (key y)) (p, h) (h.0, insert_by-Every P key x ys p h.1)

  pub sort_by-Every {κ} :
      (P : A → Type κ) (key : A → ℕ) (xs : List A) → Every P xs → Every P (sort_by key xs)
  unfolding sort_by
  sort_by-Every P key [] h = h
  sort_by-Every P key (x ∷ xs) h =
      insert_by-Every P key x (sort_by key xs) h.0 (sort_by-Every P key xs h.1)

  pub take-Every {κ} : (P : A → Type κ) (n : ℕ) (xs : List A) → Every P xs → Every P (take n xs)
  unfolding take
  take-Every P zero xs h = tt
  take-Every P (suc n) [] h = tt
  take-Every P (suc n) (x ∷ xs) h = (h.0, take-Every P n xs h.1)

  length-insert_by :
      (key : A → ℕ) (x : A) (xs : List A) → length (insert_by key x xs) ≡ suc (length xs)
  unfolding insert_by
  length-insert_by key x [] = refl
  length-insert_by key x (y ∷ ys) = ground (arith, length-insert_by key x ys)

  length-sort_by : (key : A → ℕ) (xs : List A) → length (sort_by key xs) ≡ length xs
  unfolding sort_by
  length-sort_by key [] = refl
  length-sort_by key (x ∷ xs) =
      length-insert_by key x (sort_by key xs) ∙ ap suc (length-sort_by key xs)

  length-select : (p : A → Bool) (xs : List A) → length (select p xs) ≡ count_rows p xs
  unfolding select count_rows
  length-select p [] = refl
  length-select p (x ∷ xs) = ground (arith, length-select p xs)

  take_none : (n : ℕ) (xs : List A) → take (suc n) xs ≡ [] → length xs ≡ 0
  unfolding take
  take_none n [] e = refl
  take_none n (x ∷ xs) e = cc

  pub batch_empty :
      (p : A → Bool) (key : A → ℕ) (n : ℕ) (xs : List A)
      → take (suc n) (sort_by key (select p xs)) ≡ []
      → count_rows p xs ≡ 0
  batch_empty p key n xs e =
      sym (length-select p xs)
      ∙ sym (length-sort_by key (select p xs))
      ∙ take_none n (sort_by key (select p xs)) e

  module _ (p q : A → Bool) (f : A → A) (off : (x : A) → p (f x) ≡ false) where
    pub count-modify-le : (xs : List A) → count_rows p (modify q f xs) ≤ count_rows p xs
    unfolding count_rows modify
    count-modify-le [] = omega arith
    count-modify-le (x ∷ xs) = ground (arith, off x, count-modify-le xs)

    pub count-modify-lt :
        (xs : List A)
        → exists_row (λ x. q x && p x) xs ≡ true
        → count_rows p (modify q f xs) < count_rows p xs
    unfolding count_rows modify exists_row
    count-modify-lt [] e = cc
    count-modify-lt (x ∷ xs) e = ground (arith, off x, count-modify-le xs, count-modify-lt xs)

module _ {ℓ} {A : Type ℓ} where
  exists-insert_by :
      (p : A → Bool) (key : A → ℕ) (x : A) (xs : List A)
      → exists_row p (insert_by key x xs) ≡ exists_row p (x ∷ xs)
  unfolding exists_row insert_by
  exists-insert_by p key x [] = refl
  exists-insert_by p key x (y ∷ ys) = ground (arith, exists-insert_by p key x ys)

  pub exists-sort_by :
      (p : A → Bool) (key : A → ℕ) (xs : List A) → exists_row p (sort_by key xs) ≡ exists_row p xs
  unfolding exists_row sort_by
  exists-sort_by p key [] = refl
  exists-sort_by p key (x ∷ xs) =
      exists-insert_by p key x (sort_by key xs)
      ∙ ap (λ b. if p x then true else b) (exists-sort_by p key xs)

  pub exists-select :
      (p q : A → Bool) (xs : List A) → exists_row p (select q xs) ≡ exists_row (λ x. q x && p x) xs
  unfolding exists_row select
  exists-select p q [] = refl
  exists-select p q (x ∷ xs) = ground (arith, exists-select p q xs)

  pub select-meets : (p : A → Bool) (xs : List A) → Every (λ x. p x ≡ true) (select p xs)
  unfolding select
  select-meets p [] = tt
  select-meets p (x ∷ xs) = elim (Bool-cases (p x)) [
    | inl e ↦ rw e (e, select-meets p xs)
    | inr e ↦ rw e (select-meets p xs)
  ]
