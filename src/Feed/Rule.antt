-- ===== src/Feed/Rule.antt =====
-- The feed keeps the company rule.
use native.Mathlib.Decide.{dec_le}
use stseen.Feed.{
  last_of, has_room, pick, place, interleave_by_company, too_many, keeps_company_rule,
}
use stseen.Feed.Account.{recent, of_company, Found, Picks, pick-Picks}
use stseen.Prelude.{
  ℕ, zero, suc, ◌+◌, ◌-◌, ◌≤◌, ◌≡◌, refl, ap, ◌∙◌, inl, inr, Bool, true, false, any, List, [], ◌∷◌,
  ◌++◌, map, ltb, length, take, drop, count, Text, text_eq, text_eq→eq, subst, arith, Bool-cases,
  Option-cases, count-append, count-map, count-drop_mono, length-drop, take_of_length-le,
  count-le-length,
}

module _ {T : Type 0} (company_of : T → Text) where
  -- No window of six items holds more than two of one company.
  abbrev pub KeepsRule : List T → Type 0
  KeepsRule feed = (c : Text) (k : ℕ) → count (of_company company_of c) (take 6 (drop k feed)) ≤ 2

  drop-append-le : (k : ℕ) (xs ys : List T) → k ≤ length xs → drop k (xs ++ ys) ≡ drop k xs ++ ys
  drop-append-le zero xs ys h = refl
  drop-append-le (suc k) [] ys h = absurd (omega arith)
  drop-append-le (suc k) (x ∷ xs) ys h = drop-append-le k xs ys (omega arith)

  drop-append-ge :
      (k : ℕ) (xs ys : List T) → length xs ≤ k → drop k (xs ++ ys) ≡ drop (k - length xs) ys
  drop-append-ge k [] ys h = ap (λ n. drop n ys) (omega arith)
  drop-append-ge zero (x ∷ xs) ys h = absurd (omega arith)
  drop-append-ge (suc k) (x ∷ xs) ys h =
      drop-append-ge k xs ys (omega arith) ∙ ap (λ n. drop n ys) (omega arith)

  take-append-le : (n : ℕ) (xs ys : List T) → n ≤ length xs → take n (xs ++ ys) ≡ take n xs
  take-append-le zero xs ys h = refl
  take-append-le (suc n) [] ys h = absurd (omega arith)
  take-append-le (suc n) (x ∷ xs) ys h = ap (◌∷◌ x) (take-append-le n xs ys (omega arith))

  count-take-le : (p : T → Bool) (n : ℕ) (xs : List T) → count p (take n xs) ≤ count p xs
  count-take-le p zero xs = omega arith
  count-take-le p (suc n) [] = omega arith
  count-take-le p (suc n) (x ∷ xs) = ground (arith, count-take-le p n xs)

  module _ (feed : List T) (item : T) (keeps : KeepsRule feed)
      (room : has_room company_of (recent company_of feed) item ≡ true) where
    -- The company of the new item has at most one of the five places before it.
    before : count (of_company company_of (company_of item)) (last_of 5 feed) ≤ 1
    before =
        ground (
          arith,
          count-map company_of (λ placed. text_eq placed (company_of item)) (last_of 5 feed),
        )

    one_more :
        (c : Text) (k : ℕ)
        → length feed ≤ k + 5
        → k ≤ length feed
        → count (of_company company_of c) (drop k feed ++ item ∷ []) ≤ 2
    one_more c k h l =
        rw (count-append (of_company company_of c) (drop k feed) (item ∷ []))
          (elim (Bool-cases (of_company company_of c item)) [
            | inl mine ↦
                let e = text_eq→eq (company_of item) c mine in
                let few : count (of_company company_of c) (last_of 5 feed) ≤ 1 =
                  subst (λ d. count (of_company company_of d) (last_of 5 feed) ≤ 1) e before in
                rw mine (
                  omega (
                    arith,
                    few,
                    count-drop_mono (of_company company_of c) (length feed - 5) k feed
                        (omega arith),
                  ))
            | inr other ↦ rw other (omega (arith, short))
          ])
      where
        short : count (of_company company_of c) (drop k feed) ≤ 2
        short =
            rw (take_of_length-le 6 (drop k feed) (omega (arith, length-drop k feed))) at
              (keeps c k)

    append-KeepsRule : KeepsRule (feed ++ item ∷ [])
    append-KeepsRule c k = elim (dec_le k (length feed)) [
      | no past ↦ rw (drop-append-ge k feed (item ∷ []) (omega arith)) (
          omega (
            arith,
            count-take-le (of_company company_of c) 6 (drop (k - length feed) (item ∷ [])),
            count-drop_mono (of_company company_of c) 0 (k - length feed) (item ∷ []) (omega arith),
            count-le-length (of_company company_of c) (item ∷ []),
          ))
      | yes inside ↦
          rw (drop-append-le k feed (item ∷ []) inside) (elim (dec_le (6 + k) (length feed)) [
            | yes early ↦
                rw (take-append-le 6 (drop k feed) (item ∷ []) (omega (arith, length-drop k feed)))
                  (keeps c k)
            | no late ↦ omega (
              arith,
              count-take-le (of_company company_of c) 6 (drop k feed ++ item ∷ []),
              one_more c k (omega arith) inside,
            )
          ])
    ]

  place-KeepsRule :
      (fuel : ℕ) (feed remaining : List T)
      → KeepsRule feed
      → KeepsRule (place company_of fuel feed remaining).0
  unfolding place
  place-KeepsRule zero feed remaining keeps = keeps
  place-KeepsRule (suc fuel) feed remaining keeps =
      elim (Option-cases (pick company_of (recent company_of feed) remaining)) [
        | inl e ↦ rw (e, place) keeps
        | inr ((item, rest), e) ↦
            let f : Found company_of (recent company_of feed) remaining item rest =
              subst (Picks company_of (recent company_of feed) remaining) e
                (pick-Picks company_of (recent company_of feed) remaining) in
            rw (e, place)
              (place-KeepsRule fuel (feed ++ item ∷ []) rest
                (append-KeepsRule feed item keeps f.room))
      ]

  any-false : (p : Text → Bool) (xs : List Text) → ((x : Text) → p x ≡ false) → any p xs ≡ false
  any-false p [] h = refl
  any-false p (x ∷ xs) h = rw (h x, any-false p xs h)

  keeps_company_rule_of :
      (feed : List T) → KeepsRule feed → keeps_company_rule company_of feed ≡ true
  unfolding keeps_company_rule
  keeps_company_rule_of [] keeps = refl
  keeps_company_rule_of (item ∷ []) keeps = refl
  keeps_company_rule_of (item ∷ next ∷ items) keeps =
      let companies = map company_of (take 6 (item ∷ next ∷ items)) in
      let few : too_many companies ≡ false =
        any-false (λ c. ltb 2 (count (λ other. text_eq other c) companies)) companies
          (λ c. ground (
            arith,
            keeps c 0,
            count-map company_of (λ other. text_eq other c) (take 6 (item ∷ next ∷ items)),
          )) in
      rw few (keeps_company_rule_of (next ∷ items) (λ c k. keeps c (suc k)))

  -- Whatever the openings, the feed passes the program's own check of the company rule, and no six
  -- consecutive places of it hold more than two openings of one company.
  pub feed-KeepsRule :
      (input : List T)
      → let feed = (interleave_by_company company_of input).0 in
        KeepsRule feed × (keeps_company_rule company_of feed ≡ true)
  unfolding interleave_by_company
  feed-KeepsRule input =
      let keeps = place-KeepsRule (length input) [] input nothing in
      (keeps, keeps_company_rule_of _ keeps)
    where
      nothing : KeepsRule []
      nothing c k = omega (
        arith,
        count-drop_mono (of_company company_of c) 0 k [] (omega arith),
        count-take-le (of_company company_of c) 6 (drop k []),
      )
