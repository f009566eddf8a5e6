-- ===== src/Feed/Account.antt =====
-- Every item is in the feed or counted in the overflow, and the feed stops only where no item of
-- those that remain may come next.
use mathlib.Core.List.{append_assoc, append-nil}
use stseen.Feed.{per_window, last_of, has_room, pick, place, interleave_by_company}
use stseen.Prelude.{
  ℕ, zero, suc, ◌+◌, ◌-◌, ◌≤◌, ◌<◌, ◌≡◌, ◌≢◌, refl, sym, ap, ◌∙◌, inl, inr, Bool, true, false, List,
  [], ◌∷◌, ◌++◌, Option, none, some, map, if◌then◌else◌, ltb, length, count, filter, All, Text,
  text_eq, text_eq_iff, text_eq→eq, subst, arith, Bool-cases, Option-cases, length-filter,
  count-map, length-map, length-drop,
}
use stseen.Prelude.Tally.{tally_of, bump_all, tally_of-bump_all}

module _ {T : Type 0} (company_of : T → Text) where
  abbrev pub of_company : Text → T → Bool
  of_company c item = text_eq (company_of item) c

  abbrev pub recent : List T → List Text
  recent feed = map company_of (last_of 5 feed)

  -- What `pick` finds.
  pub record Found (companies : List Text) (items : List T) (item : T) (rest : List T)
      : Type 0 where
    pub room : has_room company_of companies item ≡ true
    pub shorter : length items ≡ suc (length rest)
    pub order :
        (c : Text)
        → filter (of_company c) items ≡ (
            if of_company c item
            then item ∷ filter (of_company c) rest
            else filter (of_company c) rest)

  abbrev pub Picks : List Text → List T → Option (T × List T) → Type 0
  Picks companies items none = All (λ item. has_room company_of companies item ≡ false) items
  Picks companies items (some (item, rest)) = Found companies items item rest

  -- Two items of one company have room together.
  same_room :
      (companies : List Text) (a b : T) (c : Text)
      → of_company c a ≡ true
      → of_company c b ≡ true
      → has_room company_of companies a ≡ has_room company_of companies b
  same_room companies a b c h k =
      ap (λ d. ltb (count (λ placed. text_eq placed d) companies) per_window)
        (text_eq→eq (company_of a) c h ∙ sym (text_eq→eq (company_of b) c k))

  skip :
      (companies : List Text) (first item : T) (items rest : List T)
      → has_room company_of companies first ≡ false
      → Found companies items item rest
      → Found companies (first ∷ items) item (first ∷ rest)
  skip companies first item items rest full f = record {
    room = f.room;
    shorter = omega (arith, f.shorter);
    order = λ c. elim (Bool-cases (of_company c first)) [
      | inl mine ↦ elim (Bool-cases (of_company c item)) [
        | inl both ↦ cc (full, f.room, same_room companies first item c mine both)
        | inr differs ↦ rw (mine, differs) (ap (◌∷◌ first) (f.order c ∙ rw differs))
      ]
      | inr other ↦ rw other (f.order c)
    ];
  }

  pub pick-Picks :
      (companies : List Text) (items : List T)
      → Picks companies items (pick company_of companies items)
  unfolding pick
  pick-Picks companies [] = tt
  pick-Picks companies (first ∷ items) = elim (Bool-cases (has_room company_of companies first)) [
    | inl room ↦ rw room (record { room = room; shorter = refl; order = λ c. refl })
    | inr full ↦ rw full (go (pick company_of companies items) (pick-Picks companies items) full)
  ]
    where
      go :
          (r : Option (T × List T))
          → Picks companies items r
          → has_room company_of companies first ≡ false
          → Picks companies
              (first ∷ items)
              (elim r [ none ↦ none | some (found, rest) ↦ some (found, first ∷ rest) ])
      go none p full = (full, p)
      go (some (item, rest)) p full = skip companies first item items rest full p

  -- What holds between the input, the feed and what remains, from round to round.
  record Placed (input feed remaining : List T) : Type 0 where
    order :
        (c : Text)
        → filter (of_company c) feed ++ filter (of_company c) remaining
          ≡ filter (of_company c) input

  filter-append : (p : T → Bool) (xs ys : List T) → filter p (xs ++ ys) ≡ filter p xs ++ filter p ys
  filter-append p [] ys = refl
  filter-append p (x ∷ xs) ys = ground (arith, filter-append p xs ys)

  place-one :
      (input feed remaining rest : List T) (item : T)
      → Placed input feed remaining
      → Found (recent feed) remaining item rest
      → Placed input (feed ++ item ∷ []) rest
  place-one input feed remaining rest item k f = record {
    order = λ c. elim (Bool-cases (of_company c item)) [
      | inl mine ↦
          rw (filter-append (of_company c) feed (item ∷ []), mine)
            (rw append_assoc
              (ap (◌++◌ (filter (of_company c) feed)) (sym (f.order c ∙ rw mine)) ∙ k.order c))
      | inr other ↦
          rw (filter-append (of_company c) feed (item ∷ []), other, append-nil)
            (ap (◌++◌ (filter (of_company c) feed)) (sym (f.order c ∙ rw other)) ∙ k.order c)
    ];
  }

  -- The end of the loop: nothing remains that may come next.
  abbrev IsBlocked : List T → List T → Type 0
  IsBlocked feed remaining = All (λ item. has_room company_of (recent feed) item ≡ false) remaining

  place_lem :
      (input : List T) (fuel : ℕ) (feed remaining : List T)
      → length remaining ≤ fuel
      → Placed input feed remaining
      → let (feed', remaining') = place company_of fuel feed remaining in
        Placed input feed' remaining' × IsBlocked feed' remaining'
  unfolding place
  place_lem input zero feed [] h k = (k, tt)
  place_lem input zero feed (item ∷ remaining) h k = absurd (omega arith)
  place_lem input (suc fuel) feed remaining h k =
      elim (Option-cases (pick company_of (recent feed) remaining)) [
        | inl e ↦
            rw (e, place)
              (k, subst (Picks (recent feed) remaining) e (pick-Picks (recent feed) remaining))
        | inr ((item, rest), e) ↦
            let f : Found (recent feed) remaining item rest =
              subst (Picks (recent feed) remaining) e (pick-Picks (recent feed) remaining) in
            rw (e, place)
              (place_lem input fuel (feed ++ item ∷ []) rest (omega (arith, f.shorter))
                (place-one input feed remaining rest item k f))
      ]

  -- What the loop leaves, for the overflow to count.
  abbrev left_over : List T → List T
  left_over input = (place company_of (length input) [] input).1

  place_all :
      (input : List T)
      → Placed input (place company_of (length input) [] input).0 (left_over input)
        × IsBlocked (place company_of (length input) [] input).0 (left_over input)
  place_all input =
      place_lem input (length input) [] input (omega arith) (record { order = λ c. refl })

  tally-left_over :
      (input : List T) (c : Text)
      → tally_of c (bump_all [] (map company_of (left_over input)))
        ≡ length (filter (of_company c) (left_over input))
  unfolding tally_of
  tally-left_over input c = omega (
    arith,
    tally_of-bump_all c [] (map company_of (left_over input)),
    count-map company_of (λ key. text_eq key c) (left_over input),
    length-filter (of_company c) (left_over input),
  )

  -- Of each company the feed holds the newest openings, in their order, and the overflow counts
  -- the others: as many as the company has beyond those in the feed.
  pub interleave_order :
      (input : List T) (c : Text)
      → let (feed, overflow) = interleave_by_company company_of input in
        (n : List T) × (filter (of_company c) feed ++ n ≡ filter (of_company c) input)
        × (tally_of c overflow ≡ length n)
  unfolding interleave_by_company
  interleave_order input c = (
    filter (of_company c) (left_over input),
    (place_all input).0.order c,
    tally-left_over input c,
  )

  blocked-full :
      (feed remaining : List T) (c : Text)
      → IsBlocked feed remaining
      → 0 < count (of_company c) remaining
      → 2 ≤ count (λ placed. text_eq placed c) (recent feed)
  blocked-full feed [] c b h = absurd (omega arith)
  blocked-full feed (item ∷ remaining) c b h = elim (Bool-cases (of_company c item)) [
    | inl mine ↦
        let e : company_of item ≡ c = text_eq→eq (company_of item) c mine in
        subst (λ d. 2 ≤ count (λ placed. text_eq placed d) (recent feed)) e (ground (arith, b.0))
    | inr other ↦ blocked-full feed remaining c b.1 (rw other at h)
  ]

  -- An opening is left to the overflow only where its company already has two of the last five
  -- places of the feed.
  pub overflow-full :
      (input : List T) (c : Text)
      → let (feed, overflow) = interleave_by_company company_of input in
        0 < tally_of c overflow → 2 ≤ count (λ placed. text_eq placed c) (recent feed)
  unfolding interleave_by_company
  overflow-full input c h =
      blocked-full (place company_of (length input) [] input).0 (left_over input) c
        (place_all input).1
        (omega (arith, h, tally-left_over input c, length-filter (of_company c) (left_over input)))

count-three :
    (a b c : Text) (companies : List Text)
    → a ≢ b
    → b ≢ c
    → a ≢ c
    → count (λ p. text_eq p a) companies
        + count (λ p. text_eq p b) companies
        + count (λ p. text_eq p c) companies
      ≤ length companies
count-three a b c [] h k l = omega arith
count-three a b c (p ∷ ps) h k l =
    ground (arith, count-three a b c ps h k l, text_eq_iff p a, text_eq_iff p b, text_eq_iff p c)

length-last_of-le : {T : Type 0} (n : ℕ) (xs : List T) → length (last_of n xs) ≤ n
length-last_of-le n xs = omega (arith, length-drop {0} (length xs - n) xs)

-- So the overflow never names more than two companies.
pub overflow_two_companies :
    {T : Type 0} (company_of : T → Text) (input : List T) (a b c : Text)
    → a ≢ b
    → b ≢ c
    → a ≢ c
    → let overflow = (interleave_by_company company_of input).1 in
      ¬ ((0 < tally_of a overflow) × (0 < tally_of b overflow) × (0 < tally_of c overflow))
overflow_two_companies company_of input a b c h k l over =
    let feed = (interleave_by_company company_of input).0 in
    absurd (
      omega (
        arith,
        overflow-full company_of input a over.0,
        overflow-full company_of input b over.1,
        overflow-full company_of input c over.2,
        count-three a b c (recent company_of feed) h k l,
        length-map company_of (last_of 5 feed),
        length-last_of-le 5 feed,
      ))
