-- ===== src/Console/Order/Laws.antt =====
-- The descending order: a permutation, and what its first rows are.
use credbroker.Common.{
  ℕ, zero, suc, ◌+◌, ◌≤◌, ◌≡◌, refl, ap, ◌∙◌, inl, inr, Bool, List, [], ◌∷◌, ◌++◌, leb, take, drop,
  if◌then◌else◌, Bool-cases, ◌⊎◌, length, arith,
}
use credbroker.Console.Order.{insert_descending, order_by_desc}
use mathlib.Core.List.{Perm}
use mathlib.Core.List.Perm

module _ {ℓ κ} {A : Type ℓ} where
  abbrev pub All : (A → Type κ) → List A → Type κ
  All P [] = Unit
  All P (x ∷ xs) = P x × All P xs

  All-drop : (P : A → Type κ) (n : ℕ) (xs : List A) → All P xs → All P (drop n xs)
  All-drop P zero xs h = h
  All-drop P (suc n) [] h = h
  All-drop P (suc n) (x ∷ xs) h = All-drop P n xs h.1

module _ {ℓ} {A : Type ℓ} where
  pub take-drop : (n : ℕ) (xs : List A) → take n xs ++ drop n xs ≡ xs
  take-drop zero xs = refl
  take-drop (suc n) [] = refl
  take-drop (suc n) (x ∷ xs) = ap (λ l. x ∷ l) (take-drop n xs)

  -- A list is cut at the limit, or whole.
  pub take-full :
      (n : ℕ) (xs : List A)
      → (length (take n xs) ≡ n) ⊎ ((length (take n xs) ≤ n) × (drop n xs ≡ []))
  take-full zero xs = inl refl
  take-full (suc n) [] = inr (omega arith, refl)
  take-full (suc n) (x ∷ xs) = elim (take-full n xs) [
    | inl e ↦ inl (ap suc e)
    | inr (le, e) ↦ inr (omega arith, e)
  ]

  -- How many members pass a test.
  unfoldable pub count_if : (A → Bool) → List A → ℕ
  count_if p [] = 0
  count_if p (x ∷ xs) = let rest = count_if p xs in if p x then rest + 1 else rest

  pub count_if-cons :
      (p : A → Bool) (x : A) (xs ys : List A)
      → count_if p xs ≡ count_if p ys
      → count_if p (x ∷ xs) ≡ count_if p (x ∷ ys)
  unfolding count_if
  count_if-cons p x xs ys e = ground arith

  pub count_if-take : (p : A → Bool) (n : ℕ) (xs : List A) → count_if p (take n xs) ≤ count_if p xs
  unfolding count_if
  count_if-take p zero xs = omega arith
  count_if-take p (suc n) [] = omega arith
  count_if-take p (suc n) (x ∷ xs) = ground (arith, count_if-take p n xs)

module _ {ℓ} {A : Type ℓ} (column : A → ℕ) where
  abbrev UpTo : A → A → Type 0
  UpTo x y = column y ≤ column x

  -- Each row is no older than those after it.
  abbrev pub Descending : List A → Type 0
  Descending [] = Unit
  Descending (x ∷ xs) = All (UpTo x) xs × Descending xs

  All-insert :
      (P : A → Type 0) (x : A) (xs : List A)
      → P x
      → All P xs
      → All P (insert_descending column x xs)
  unfolding insert_descending
  All-insert P x [] p h = (p, tt)
  All-insert P x (y ∷ ys) p (q, h) = elim (Bool-cases (leb (column y) (column x))) [
    | inl first ↦ rw first (p, (q, h))
    | inr later ↦ rw later (q, All-insert P x ys p h)
  ]

  All-UpTo : (x y : A) (ys : List A) → column y ≤ column x → All (UpTo y) ys → All (UpTo x) ys
  All-UpTo x y [] le h = tt
  All-UpTo x y (z ∷ ys) le (q, h) = (omega arith, All-UpTo x y ys le h)

  insert-Descending :
      (x : A) (xs : List A) → Descending xs → Descending (insert_descending column x xs)
  unfolding insert_descending
  insert-Descending x [] h = (tt, tt)
  insert-Descending x (y ∷ ys) (below, h) = elim (Bool-cases (leb (column y) (column x))) [
    | inl first ↦
        let le : column y ≤ column x = ground arith in
        rw first ((le, All-UpTo x y ys le below), (below, h))
    | inr later ↦ rw later (All-insert (UpTo y) x ys (ground arith) below, insert-Descending x ys h)
  ]

  pub order_by_desc-Descending : (xs : List A) → Descending (order_by_desc column xs)
  unfolding order_by_desc
  order_by_desc-Descending [] = tt
  order_by_desc-Descending (x ∷ xs) = insert-Descending x _ (order_by_desc-Descending xs)

  insert-perm : (x : A) (xs : List A) → Perm (insert_descending column x xs) (x ∷ xs)
  unfolding insert_descending
  insert-perm x [] = Perm.rfl
  insert-perm x (y ∷ ys) = elim (Bool-cases (leb (column y) (column x))) [
    | inl first ↦ rw first Perm.rfl
    | inr later ↦ rw later (Perm.trans (Perm.cons y (insert-perm x ys)) (Perm.swap x y ys))
  ]

  pub order_by_desc-perm : (xs : List A) → Perm (order_by_desc column xs) xs
  unfolding order_by_desc
  order_by_desc-perm [] = Perm.rfl
  order_by_desc-perm (x ∷ xs) =
      Perm.trans (insert-perm x (order_by_desc column xs)) (Perm.cons x (order_by_desc-perm xs))

  count_if-insert :
      (p : A → Bool) (x : A) (xs : List A)
      → count_if p (insert_descending column x xs) ≡ count_if p (x ∷ xs)
  unfolding insert_descending count_if
  count_if-insert p x [] = refl
  count_if-insert p x (y ∷ ys) = ground (arith, count_if-insert p x ys)

  pub count_if-order_by_desc :
      (p : A → Bool) (xs : List A) → count_if p (order_by_desc column xs) ≡ count_if p xs
  unfolding order_by_desc
  count_if-order_by_desc p [] = refl
  count_if-order_by_desc p (x ∷ xs) =
      count_if-insert p x (order_by_desc column xs)
      ∙ count_if-cons p x _ _ (count_if-order_by_desc p xs)

  -- Every one of the first rows is no older than any of the rest.
  abbrev pub Newest : List A → List A → Type 0
  Newest shown hidden = All (λ g. All (UpTo g) hidden) shown

  pub take-Newest : (n : ℕ) (xs : List A) → Descending xs → Newest (take n xs) (drop n xs)
  take-Newest zero xs h = tt
  take-Newest (suc n) [] h = tt
  take-Newest (suc n) (x ∷ xs) (below, h) = (All-drop (UpTo x) n xs below, take-Newest n xs h)

  All-take : (P : A → Type 0) (n : ℕ) (xs : List A) → All P xs → All P (take n xs)
  All-take P zero xs h = tt
  All-take P (suc n) [] h = h
  All-take P (suc n) (x ∷ xs) (p, h) = (p, All-take P n xs h)

  pub take-Descending : (n : ℕ) (xs : List A) → Descending xs → Descending (take n xs)
  take-Descending zero xs h = tt
  take-Descending (suc n) [] h = h
  take-Descending (suc n) (x ∷ xs) (below, h) =
      (All-take (UpTo x) n xs below, take-Descending n xs h)
