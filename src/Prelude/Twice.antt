-- ===== src/Prelude/Twice.antt =====
-- Queries that are made twice.
use nuco_messenger.Prelude.{
  Bool, Bool-cases, List, [], arith, false, inl, inr, refl, some, true, ◌&&◌, ◌++◌, ◌∷◌, ◌≡◌,
}
use nuco_messenger.Prelude.Rows.{discard, exists_row, first_row, modify}

module _ {ℓ} {A : Type ℓ} where
  -- An update by one test, of a row that another test finds first.
  pub first-modify_other :
      (p q : A → Bool) (f : A → A)
      → ((x : A) → p (f x) ≡ p x)
      → (xs : List A) (x : A) → first_row p xs ≡ some x
      → q x ≡ true
      → first_row p (modify q f xs) ≡ some (f x)
  unfolding first_row modify
  first-modify_other p q f same [] x e m = cc
  first-modify_other p q f same (y ∷ ys) x e m =
      ground (arith, same y, first-modify_other p q f same ys x)

  pub modify-again :
      (q : A → Bool) (f g : A → A)
      → ((x : A) → q (f x) ≡ q x)
      → ((x : A) → g (f x) ≡ f x)
      → (xs : List A) → modify q g (modify q f xs) ≡ modify q f xs
  unfolding modify
  modify-again q f g same twice [] = refl
  modify-again q f g same twice (x ∷ xs) = elim (Bool-cases (q x)) [
    | inl e ↦ rw (e, same x, e, twice x, modify-again q f g same twice xs) refl
    | inr e ↦ rw (e, e, modify-again q f g same twice xs) refl
  ]

  pub discard-again : (p : A → Bool) (xs : List A) → discard p (discard p xs) ≡ discard p xs
  unfolding discard
  discard-again p [] = refl
  discard-again p (x ∷ xs) = elim (Bool-cases (p x)) [
    | inl e ↦ rw (e) (discard-again p xs)
    | inr e ↦ rw (e, e, discard-again p xs) refl
  ]

  pub exists-append_new :
      (p : A → Bool) (x : A) (xs : List A) → p x ≡ true → exists_row p (xs ++ x ∷ []) ≡ true
  unfolding exists_row
  exists-append_new p x [] e = rw e refl
  exists-append_new p x (y ∷ ys) e = ground (arith, exists-append_new p x ys)

  pub discard_none : (p : A → Bool) → ((x : A) → p x ≡ false) → (xs : List A) → discard p xs ≡ xs
  unfolding discard
  discard_none p never [] = refl
  discard_none p never (x ∷ xs) = rw (never x, discard_none p never xs) refl

  pub exists-discard_gone :
      (p q : A → Bool) (xs : List A) → exists_row (λ x. p x && q x) (discard p xs) ≡ false
  unfolding discard exists_row
  exists-discard_gone p q [] = refl
  exists-discard_gone p q (x ∷ xs) = ground (arith, exists-discard_gone p q xs)

  pub first-row_meets : (p : A → Bool) (xs : List A) (x : A) → first_row p xs ≡ some x → p x ≡ true
  unfolding first_row
  first-row_meets p [] x e = cc
  first-row_meets p (y ∷ ys) x e = ground (arith, first-row_meets p ys x)
