-- ===== src/Prelude/Sort.antt =====
-- `Array.prototype.sort` with a comparator: a stable sort that reads only the sign of an answer.
use mathlib.Core.List.{Perm}
use mathlib.Core.List.Perm
use stseen.Prelude.{
  suc, ◌≡◌, refl, inl, inr, Bool, List, [], ◌∷◌, arith, ◌==◌, if◌then◌else◌, All, Bool-cases,
  length, count, filter, ◌∙◌,
}
use stseen.Prelude.Int.{ℤ, pos_part, neg_part}

module _ {ℓ} {A : Type ℓ} where
  -- A negative or zero answer leaves the first argument first.
  abbrev pub first_stays : (A → A → ℤ) → A → A → Bool
  first_stays cmp a b = pos_part (cmp a b) == 0

  unfoldable pub insert : (A → A → ℤ) → A → List A → List A
  insert cmp a [] = a ∷ []
  insert cmp a (b ∷ bs) = if first_stays cmp a b then a ∷ b ∷ bs else b ∷ insert cmp a bs

  unfoldable pub sort : (A → A → ℤ) → List A → List A
  unfolding insert
  sort cmp [] = []
  sort cmp (a ∷ as_) = insert cmp a (sort cmp as_)

  -- Every element stays before all that follow it.
  abbrev pub IsSorted : (A → A → ℤ) → List A → Type ℓ
  IsSorted cmp [] = Unit
  IsSorted cmp (a ∷ rest) = All (λ b. pos_part (cmp a b) ≡ 0) rest × IsSorted cmp rest

  -- The answers that a sort can rely on.
  pub record IsLawful (cmp : A → A → ℤ) : Type ℓ where
    pub flip : (a b : A) → pos_part (cmp a b) ≡ neg_part (cmp b a)
    pub trans :
        (a b c : A) → pos_part (cmp a b) ≡ 0 → pos_part (cmp b c) ≡ 0 → pos_part (cmp a c) ≡ 0

module _ {ℓ} {A : Type ℓ} (cmp : A → A → ℤ) where
  pub insert-perm : (a : A) (xs : List A) → Perm (insert cmp a xs) (a ∷ xs)
  unfolding insert
  insert-perm a [] = Perm.refl _
  insert-perm a (b ∷ bs) = elim (Bool-cases (first_stays cmp a b)) [
    | inl stays ↦ rw stays (Perm.refl _)
    | inr moves ↦ rw moves (Perm.trans (Perm.cons b (insert-perm a bs)) (Perm.swap a b bs))
  ]

  pub sort-perm : (xs : List A) → Perm (sort cmp xs) xs
  unfolding sort
  sort-perm [] = Perm.refl _
  sort-perm (a ∷ xs) = Perm.trans (insert-perm a (sort cmp xs)) (Perm.cons a (sort-perm xs))

  count-insert : (p : A → Bool) (a : A) (xs : List A) → count p (insert cmp a xs) ≡ count p (a ∷ xs)
  unfolding insert
  count-insert p a [] = refl
  count-insert p a (b ∷ bs) = ground (arith, count-insert p a bs)

  pub count-sort : (p : A → Bool) (xs : List A) → count p (sort cmp xs) ≡ count p xs
  unfolding sort
  count-sort p [] = refl
  count-sort p (a ∷ xs) = ground (arith, count-insert p a (sort cmp xs), count-sort p xs)

  length-insert : (a : A) (xs : List A) → length (insert cmp a xs) ≡ suc (length xs)
  unfolding insert
  length-insert a [] = refl
  length-insert a (b ∷ bs) = ground (arith, length-insert a bs)

  pub length-sort : (xs : List A) → length (sort cmp xs) ≡ length xs
  unfolding sort
  length-sort [] = refl
  length-sort (a ∷ xs) = ground (arith, length-insert a (sort cmp xs), length-sort xs)

  pub All-insert {κ} :
      (P : A → Type κ) (a : A) (xs : List A) → P a → All P xs → All P (insert cmp a xs)
  unfolding insert
  All-insert P a [] p h = (p, tt)
  All-insert P a (b ∷ bs) p h = elim (Bool-cases (first_stays cmp a b)) [
    | inl stays ↦ rw stays (p, h)
    | inr moves ↦ rw moves (h.0, All-insert P a bs p h.1)
  ]

  pub All-sort {κ} : (P : A → Type κ) (xs : List A) → All P xs → All P (sort cmp xs)
  unfolding sort
  All-sort P [] h = tt
  All-sort P (a ∷ xs) h = All-insert P a (sort cmp xs) h.0 (All-sort P xs h.1)

  module _ (law : IsLawful cmp) where
    All-below :
        (a b : A) (xs : List A)
        → pos_part (cmp a b) ≡ 0
        → All (λ c. pos_part (cmp b c) ≡ 0) xs
        → All (λ c. pos_part (cmp a c) ≡ 0) xs
    All-below a b [] e h = tt
    All-below a b (c ∷ xs) e h = (law.trans a b c e h.0, All-below a b xs e h.1)

    insert-IsSorted : (a : A) (xs : List A) → IsSorted cmp xs → IsSorted cmp (insert cmp a xs)
    unfolding insert
    insert-IsSorted a [] s = (tt, tt)
    insert-IsSorted a (b ∷ bs) s = elim (Bool-cases (first_stays cmp a b)) [
      | inl stays ↦
          let e : pos_part (cmp a b) ≡ 0 = ground arith in rw stays ((e, All-below a b bs e s.0), s)
      | inr moves ↦
          let e : pos_part (cmp b a) ≡ 0 = ground (arith, law.flip a b, law.flip b a) in
          rw moves (All-insert (λ c. pos_part (cmp b c) ≡ 0) a bs e s.0, insert-IsSorted a bs s.1)
    ]

    -- With lawful answers the result is in order.
    pub sort-IsSorted : (xs : List A) → IsSorted cmp (sort cmp xs)
    unfolding sort
    sort-IsSorted [] = tt
    sort-IsSorted (a ∷ xs) = insert-IsSorted a (sort cmp xs) (sort-IsSorted xs)

    insert_of_All :
        (a : A) (xs : List A) → All (λ b. pos_part (cmp a b) ≡ 0) xs → insert cmp a xs ≡ a ∷ xs
    unfolding insert
    insert_of_All a [] h = refl
    insert_of_All a (b ∷ bs) h = ground arith

    pub sort_of_IsSorted : (xs : List A) → IsSorted cmp xs → sort cmp xs ≡ xs
    unfolding sort
    sort_of_IsSorted [] s = refl
    sort_of_IsSorted (a ∷ xs) s = rw (sort_of_IsSorted xs s.1) (insert_of_All a xs s.0)

    All-filter {κ} : (P : A → Type κ) (p : A → Bool) (xs : List A) → All P xs → All P (filter p xs)
    All-filter P p [] h = tt
    All-filter P p (x ∷ xs) h = ground (arith, All-filter P p xs h.1)

    filter-insert :
        (p : A → Bool) (a : A) (xs : List A)
        → IsSorted cmp xs
        → filter p (insert cmp a xs) ≡ (if p a then insert cmp a (filter p xs) else filter p xs)
    unfolding insert
    filter-insert p a [] s = refl
    filter-insert p a (b ∷ bs) s = elim (Bool-cases (first_stays cmp a b)) [
      | inl stays ↦
          let e : pos_part (cmp a b) ≡ 0 = ground arith in
          rw stays (ground (arith, insert_of_All a (filter p (b ∷ bs)) (below e)))
      | inr moves ↦ rw moves (ground (arith, filter-insert p a bs s.1))
    ]
      where
        below : pos_part (cmp a b) ≡ 0 → All (λ c. pos_part (cmp a c) ≡ 0) (filter p (b ∷ bs))
        below e = All-filter (λ c. pos_part (cmp a c) ≡ 0) p (b ∷ bs) (e, All-below a b bs e s.0)

    -- Filtering keeps the order, so it may come before the sort or after it.
    pub filter-sort : (p : A → Bool) (xs : List A) → filter p (sort cmp xs) ≡ sort cmp (filter p xs)
    unfolding sort
    filter-sort p [] = refl
    filter-sort p (a ∷ xs) =
        filter-insert p a (sort cmp xs) (sort-IsSorted xs) ∙ ground (arith, filter-sort p xs)
