-- ===== src/GuestCache/Canonical.antt =====
-- A list of values in the one order: what is in it, and that no value is in it twice.
use stseen.Dashboard.{DashboardFilters}
use stseen.Dashboard.Query.{dedupe}
use stseen.Dashboard.Query.Dedupe.{dedupe-All, length-dedupe-le, any-dedupe_nil}
use stseen.GuestCache.{text_order, canonical_list}
use stseen.Prelude.{
  ◌≤◌, ◌≡◌, refl, ◌∙◌, Bool, true, false, not, ◌&&◌, ◌||◌, List, [], ◌∷◌, all, any, All, length,
  Text, text_eq, Bool-cases, inl, inr, arith,
}
use stseen.Prelude.Int.{ℤ}
use stseen.Prelude.Words.{trim}
use stseen.Prelude.Sort.{first_stays, insert, sort, length-sort}

module _ (cmp : Text → Text → ℤ) where
  any-insert :
      (p : Text → Bool) (a : Text) (xs : List Text) → any p (insert cmp a xs) ≡ (p a || any p xs)
  unfolding insert
  any-insert p a [] = refl
  any-insert p a (b ∷ bs) = ground (arith, any-insert p a bs)

  any-sort : (p : Text → Bool) (xs : List Text) → any p (sort cmp xs) ≡ any p xs
  unfolding sort
  any-sort p [] = refl
  any-sort p (a ∷ xs) = any-insert p a (sort cmp xs) ∙ ground (arith, any-sort p xs)

  insert-All {ℓ} :
      (P : Text → Type ℓ) (a : Text) (xs : List Text) → P a → All P xs → All P (insert cmp a xs)
  unfolding insert
  insert-All P a [] h k = (h, tt)
  insert-All P a (b ∷ bs) h k = elim (Bool-cases (first_stays cmp a b)) [
    | inl e ↦ rw e (h, k)
    | inr e ↦ rw e (k.0, insert-All P a bs h k.1)
  ]

  sort-All {ℓ} : (P : Text → Type ℓ) (xs : List Text) → All P xs → All P (sort cmp xs)
  unfolding sort
  sort-All P [] h = tt
  sort-All P (a ∷ xs) h = insert-All P a (sort cmp xs) h.0 (sort-All P xs h.1)

text_eq_comm : (s t : Text) → text_eq s t ≡ text_eq t s
text_eq_comm [] [] = refl
text_eq_comm [] (d ∷ t) = refl
text_eq_comm (c ∷ s) [] = refl
text_eq_comm (c ∷ s) (d ∷ t) = ground (arith, text_eq_comm s t)

-- No value twice.
distinct : List Text → Bool
distinct [] = true
distinct (v ∷ xs) = not (any (text_eq v) xs) && distinct xs

-- No value that was set before.
clear : List Text → List Text → Bool
clear set = all λ v. not (any (text_eq v) set)

clear_nil : (xs : List Text) → clear [] xs ≡ true
unfolding clear
clear_nil [] = refl
clear_nil (v ∷ xs) = clear_nil xs

clear_cons :
    (v : Text) (set xs : List Text)
    → any (text_eq v) xs ≡ false
    → clear set xs ≡ true
    → clear (v ∷ set) xs ≡ true
unfolding clear
clear_cons v set [] h k = refl
clear_cons v set (x ∷ xs) h k = ground (arith, text_eq_comm v x, clear_cons v set xs)

clear-cons_left :
    (v : Text) (set xs : List Text)
    → clear (v ∷ set) xs ≡ true
    → (any (text_eq v) xs ≡ false) × (clear set xs ≡ true)
unfolding clear
clear-cons_left v set [] h = (refl, refl)
clear-cons_left v set (x ∷ xs) h = ground (arith, text_eq_comm v x, clear-cons_left v set xs)

dedupe_of_distinct :
    (set xs : List Text) → distinct xs ≡ true → clear set xs ≡ true → dedupe set xs ≡ xs
unfolding dedupe distinct clear
dedupe_of_distinct set [] h k = refl
dedupe_of_distinct set (v ∷ xs) h k = elim (Bool-cases (any (text_eq v) set)) [
  | inl e ↦ absurd (ground arith)
  | inr e ↦
      (rw
        (
          e,
          dedupe_of_distinct (v ∷ set) xs (ground arith)
              (clear_cons v set xs (ground arith) (ground arith)),
        )
        refl)
]

distinct-dedupe :
    (set xs : List Text) → (distinct (dedupe set xs) ≡ true) × (clear set (dedupe set xs) ≡ true)
unfolding dedupe distinct clear
distinct-dedupe set [] = (refl, refl)
distinct-dedupe set (v ∷ xs) = elim (Bool-cases (any (text_eq v) set)) [
  | inl e ↦ rw e (distinct-dedupe set xs)
  | inr e ↦
      (let rest = distinct-dedupe (v ∷ set) xs in
        let left = clear-cons_left v set (dedupe (v ∷ set) xs) rest.1 in
        rw (e, left.0, rest.0, e, left.1) (refl, refl))
]

distinct-insert :
    (cmp : Text → Text → ℤ) (a : Text) (xs : List Text)
    → distinct (insert cmp a xs) ≡ (not (any (text_eq a) xs) && distinct xs)
unfolding insert distinct
distinct-insert cmp a [] = refl
distinct-insert cmp a (b ∷ bs) = elim (Bool-cases (first_stays cmp a b)) [
  | inl e ↦ rw e refl
  | inr e ↦
      (rw (e, any-insert cmp (text_eq b) a bs, distinct-insert cmp a bs)
        (ground (arith, text_eq_comm a b)))
]

distinct-sort : (cmp : Text → Text → ℤ) (xs : List Text) → distinct (sort cmp xs) ≡ distinct xs
unfolding sort distinct
distinct-sort cmp [] = refl
distinct-sort cmp (a ∷ xs) =
    distinct-insert cmp a (sort cmp xs)
    ∙ rw (any-sort cmp (text_eq a) xs, distinct-sort cmp xs) refl

-- A list in the one order has no value twice, and the values of the list that it is made of.
pub dedupe-canonical_list : (xs : List Text) → dedupe [] (canonical_list xs) ≡ canonical_list xs
unfolding canonical_list
dedupe-canonical_list xs =
    dedupe_of_distinct [] (sort text_order (dedupe [] xs))
      (distinct-sort text_order (dedupe [] xs) ∙ (distinct-dedupe [] xs).0)
      (clear_nil (sort text_order (dedupe [] xs)))

pub any-canonical_list :
    (t : Text) (xs : List Text) → any (text_eq t) (canonical_list xs) ≡ any (text_eq t) xs
unfolding canonical_list
any-canonical_list t xs = any-sort text_order (text_eq t) (dedupe [] xs) ∙ any-dedupe_nil t xs

pub canonical_list-All {ℓ} :
    (P : Text → Type ℓ) (xs : List Text) → All P xs → All P (canonical_list xs)
unfolding canonical_list
canonical_list-All P xs h = sort-All text_order P (dedupe [] xs) (dedupe-All P [] xs h)

pub length-canonical_list-le : (xs : List Text) → length (canonical_list xs) ≤ length xs
unfolding canonical_list
length-canonical_list-le xs =
    omega (arith, length-sort text_order (dedupe [] xs), length-dedupe-le [] xs)

-- The filters with the text to search for trimmed, as a link states it.
abbrev pub tidy : DashboardFilters → DashboardFilters
tidy f = record f { query = trim f.query }

pub canonical_list-nil : canonical_list [] ≡ []
unfolding canonical_list dedupe sort
canonical_list-nil = refl
