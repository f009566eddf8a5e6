-- ===== src/Dashboard/Query/Dedupe.antt =====
-- Lists without repetition, and what they keep of the lists that they are made of.
use stseen.Dashboard.Query.{concat, dedupe}
use stseen.Prelude.{
  ℕ, zero, suc, ◌≤◌, ◌≡◌, refl, sym, subst, Bool, true, ◌&&◌, ◌||◌, List, [], ◌∷◌, ◌++◌, map,
  filter, any, take, All, All-append, length, Text, text_eq, text_eq→eq, Bool-cases, inl, inr,
  arith, length-append,
}

pub take-dedupe :
    (n : ℕ) (set xs : List Text) → dedupe set (take n (dedupe set xs)) ≡ take n (dedupe set xs)
unfolding dedupe
take-dedupe zero set xs = refl
take-dedupe (suc n) set [] = refl
take-dedupe (suc n) set (v ∷ xs) = elim (Bool-cases (any (text_eq v) set)) [
  | inl e ↦ rw e (take-dedupe (suc n) set xs)
  | inr e ↦ rw (e, e, take-dedupe n (v ∷ set) xs) refl
]

pub dedupe-dedupe : (set xs : List Text) → dedupe set (dedupe set xs) ≡ dedupe set xs
unfolding dedupe
dedupe-dedupe set [] = refl
dedupe-dedupe set (v ∷ xs) = elim (Bool-cases (any (text_eq v) set)) [
  | inl e ↦ rw e (dedupe-dedupe set xs)
  | inr e ↦ rw (e, e, dedupe-dedupe (v ∷ set) xs) refl
]

pub dedupe-All {ℓ} : (P : Text → Type ℓ) (set xs : List Text) → All P xs → All P (dedupe set xs)
unfolding dedupe
dedupe-All P set [] h = tt
dedupe-All P set (v ∷ xs) h = elim (Bool-cases (any (text_eq v) set)) [
  | inl e ↦ rw e (dedupe-All P set xs h.1)
  | inr e ↦ rw e (h.0, dedupe-All P (v ∷ set) xs h.1)
]

pub take-All {ℓ} : (P : Text → Type ℓ) (n : ℕ) (xs : List Text) → All P xs → All P (take n xs)
take-All P zero xs h = tt
take-All P (suc n) [] h = tt
take-All P (suc n) (v ∷ xs) h = (h.0, take-All P n xs h.1)

pub length-dedupe-le : (set xs : List Text) → length (dedupe set xs) ≤ length xs
unfolding dedupe
length-dedupe-le set [] = omega arith
length-dedupe-le set (v ∷ xs) =
    ground (arith, length-dedupe-le set xs, length-dedupe-le (v ∷ set) xs)

any_of_eq :
    (t v : Text) (set : List Text)
    → text_eq t v ≡ true
    → any (text_eq v) set ≡ true
    → any (text_eq t) set ≡ true
any_of_eq t v set h k = subst (λ u. any (text_eq u) set ≡ true) (sym (text_eq→eq t v h)) k

-- What is found in the list without repetition, or among what was set before, is what is found in
-- the list or before it.
pub any-dedupe :
    (t : Text) (set xs : List Text)
    → (any (text_eq t) (dedupe set xs) || any (text_eq t) set)
      ≡ (any (text_eq t) xs || any (text_eq t) set)
unfolding dedupe
any-dedupe t set [] = refl
any-dedupe t set (v ∷ xs) = elim (Bool-cases (any (text_eq v) set)) [
  | inl e ↦ elim (Bool-cases (text_eq t v)) [
    | inl k ↦ rw e (ground (arith, any-dedupe t set xs, any_of_eq t v set k e))
    | inr k ↦ rw e (ground (arith, any-dedupe t set xs))
  ]
  | inr e ↦ rw e (ground (arith, any-dedupe t (v ∷ set) xs))
]

-- A test of the elements that are found decides the same of both.
pub any-dedupe_nil :
    (t : Text) (xs : List Text) → any (text_eq t) (dedupe [] xs) ≡ any (text_eq t) xs
any-dedupe_nil t xs = ground (arith, any-dedupe t [] xs)

pub append-All {ℓ} :
    (P : Text → Type ℓ) (xs ys : List Text) → All P (xs ++ ys) → All P xs × All P ys
append-All P [] ys h = (tt, h)
append-All P (x ∷ xs) ys h = ((h.0, (append-All P xs ys h.1).0), (append-All P xs ys h.1).1)

module _ {A : Type 0} (values : A → List Text) (p : A → Bool) where
  -- The lists of the elements that pass the test, one after the other.
  abbrev pub chosen : List A → List Text
  chosen xs = concat (map values (filter p xs))

  any-append :
      (t : Text) (xs ys : List Text)
      → any (text_eq t) (xs ++ ys) ≡ (any (text_eq t) xs || any (text_eq t) ys)
  any-append t [] ys = refl
  any-append t (x ∷ xs) ys = ground (arith, any-append t xs ys)

  pub any-chosen :
      (t : Text) (xs : List A)
      → any (text_eq t) (chosen xs) ≡ any (λ x. any (text_eq t) (values x) && p x) xs
  unfolding concat
  any-chosen t [] = refl
  any-chosen t (x ∷ xs) = elim (Bool-cases (p x)) [
    | inl e ↦ rw e (rw (any-append t (values x) (chosen xs), any-chosen t xs) (ground arith))
    | inr e ↦ rw e (rw (any-chosen t xs) (ground arith))
  ]

  pub length-chosen-le : (xs : List A) → length (chosen xs) ≤ length (concat (map values xs))
  unfolding concat
  length-chosen-le [] = omega arith
  length-chosen-le (x ∷ xs) = elim (Bool-cases (p x)) [
    | inl e ↦
        (rw e (
          omega (
            arith,
            length-append (values x) (chosen xs),
            length-append (values x) (concat (map values xs)),
            length-chosen-le xs,
          )))
    | inr e ↦
        rw e (omega (arith, length-append (values x) (concat (map values xs)), length-chosen-le xs))
  ]

  pub chosen-All {ℓ} :
      (P : Text → Type ℓ) (xs : List A) → All P (concat (map values xs)) → All P (chosen xs)
  unfolding concat
  chosen-All P [] h = tt
  chosen-All P (x ∷ xs) h = elim (Bool-cases (p x)) [
    | inl e ↦
        (let both = append-All P (values x) (concat (map values xs)) h in
          rw e (All-append P (values x) (chosen xs) both.0 (chosen-All P xs both.1)))
    | inr e ↦ rw e (chosen-All P xs (append-All P (values x) (concat (map values xs)) h).1)
  ]
