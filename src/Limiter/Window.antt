-- ===== src/Limiter/Window.antt =====
-- The rule of one sliding window: what `take_from_window` answers, and what it keeps.
use stseen.Limiter.{earlier, is_recent, seconds_up, retry_after, recent_hits, take_from_window}
use stseen.Prelude.{
  ℕ, ◌+◌, ◌-◌, ◌*◌, ◌≤◌, ◌<◌, max, ◌≡◌, refl, ◌↔◌, inl, inr, Bool, true, false, ◌&&◌, List, [], ◌∷◌,
  ◌++◌, some, arith, length, filter, head?, count, All, Bool-cases, count-filter,
  filter-filter_of_imp, length-append, length-filter, ap, ◌∙◌, sym, count-le-length, filter-All,
  count_of_All, All-map,
}
use stseen.Prelude.Int.{pos_part}
use stseen.Prelude.Sort.{
  sort, IsSorted, IsLawful, count-sort, length-sort, All-sort, filter-sort, sort_of_IsSorted,
  sort-IsSorted,
}

pub earlier-IsLawful : IsLawful earlier
earlier-IsLawful = record { flip = λ a b. ground arith; trans = λ a b c h k. ground arith }

pub count-recent_hits :
    (q : ℕ → Bool) (hits : List ℕ) (now period : ℕ)
    → count q (recent_hits hits now period) ≡ count (λ a. q a && is_recent now period a) hits
unfolding recent_hits
count-recent_hits q hits now period =
    count-sort earlier q (filter (is_recent now period) hits)
    ∙ count-filter (is_recent now period) q hits

-- What has left the window by one time has left it by any later time.
pub recent_hits-recent_hits :
    (hits : List ℕ) (now later period : ℕ)
    → now ≤ later
    → recent_hits (recent_hits hits now period) later period ≡ recent_hits hits later period
unfolding recent_hits
recent_hits-recent_hits hits now later period h =
    let here = is_recent now period in
    let there = is_recent later period in
    ap (sort earlier) (filter-sort earlier earlier-IsLawful there (filter here hits))
    ∙ sort_of_IsSorted earlier earlier-IsLawful (sort earlier (filter there (filter here hits)))
        (sort-IsSorted earlier earlier-IsLawful (filter there (filter here hits)))
    ∙ ap (sort earlier) (filter-filter_of_imp here there hits (λ a k. ground arith))

pub take_allowed_hits :
    (hits : List ℕ) (now limit period : ℕ)
    → (take_from_window hits now limit period).allowed ≡ true
    → (take_from_window hits now limit period).hits ≡ recent_hits hits now period ++ now ∷ []
unfolding take_from_window
take_allowed_hits hits now limit period h = ground arith

pub take_refused_hits :
    (hits : List ℕ) (now limit period : ℕ)
    → (take_from_window hits now limit period).allowed ≡ false
    → (take_from_window hits now limit period).hits ≡ recent_hits hits now period
unfolding take_from_window
take_refused_hits hits now limit period h = ground arith

-- The decision depends on the hits only through those that are recent.
take-recent_hits :
    (hits : List ℕ) (now later limit period : ℕ)
    → now ≤ later
    → take_from_window (recent_hits hits now period) later limit period
      ≡ take_from_window hits later limit period
unfolding take_from_window
take-recent_hits hits now later limit period h =
    rw (recent_hits-recent_hits hits now later period h)

-- A refused question is not recorded: every later question is answered as if it had not been
-- asked, whatever the limit it is held to.
pub take_refused_is_forgotten :
    (hits : List ℕ) (now later limit other period : ℕ)
    → now ≤ later
    → (take_from_window hits now limit period).allowed ≡ false
    → take_from_window (take_from_window hits now limit period).hits later other period
      ≡ take_from_window hits later other period
take_refused_is_forgotten hits now later limit other period h refused =
    rw (take_refused_hits hits now limit period refused)
      (take-recent_hits hits now later other period h)

length-recent_hits :
    (hits : List ℕ) (now period : ℕ)
    → length (recent_hits hits now period) ≡ count (is_recent now period) hits
unfolding recent_hits
length-recent_hits hits now period =
    length-sort earlier _ ∙ length-filter (is_recent now period) hits

-- A question is allowed exactly when fewer than `limit` hits are recent.
pub take-allowed_iff :
    (hits : List ℕ) (now limit period : ℕ)
    → ((take_from_window hits now limit period).allowed ≡ true)
      ↔ (count (is_recent now period) hits < limit)
unfolding take_from_window
take-allowed_iff hits now limit period = ground (arith, length-recent_hits hits now period)

-- The window never holds more than `limit` hits.
pub length-take_hits-le :
    (hits : List ℕ) (now limit period : ℕ)
    → length hits ≤ limit
    → length (take_from_window hits now limit period).hits ≤ limit
unfolding take_from_window
length-take_hits-le hits now limit period h = ground (
  arith,
  length-recent_hits hits now period,
  count-le-length (is_recent now period) hits,
  length-append (recent_hits hits now period) (now ∷ []),
)

recent_hits-IsSorted :
    (hits : List ℕ) (now period : ℕ) → IsSorted earlier (recent_hits hits now period)
unfolding recent_hits
recent_hits-IsSorted hits now period =
    sort-IsSorted earlier earlier-IsLawful (filter (is_recent now period) hits)

-- With the recent hits in order, `oldest` first, what is still recent at a later time `t`.
count-recent_full :
    (oldest t period : ℕ) (rest : List ℕ)
    → All (λ b. pos_part (earlier oldest b) ≡ 0) rest
    → t < oldest + period
    → count (is_recent t period) (oldest ∷ rest) ≡ length (oldest ∷ rest)
count-recent_full oldest t period rest h late = count_of_All (is_recent t period) (oldest ∷ rest) (
  ground arith,
  All-map (λ b. pos_part (earlier oldest b) ≡ 0) (λ b. is_recent t period b ≡ true) rest
      (λ b k. ground arith) h,
)

count-recent_freed :
    (oldest t period : ℕ) (rest : List ℕ)
    → oldest + period ≤ t
    → count (is_recent t period) (oldest ∷ rest) ≤ length rest
count-recent_freed oldest t period rest h =
    ground (arith, count-le-length (is_recent t period) rest)

-- The answers after a refusal, in terms of the oldest recent hit.
record Refusal (hits : List ℕ) (now limit period : ℕ) : Type 0 where
  oldest : ℕ
  within : now < oldest + period
  advice :
      (take_from_window hits now limit period).retry_after_seconds
      ≡ some (max 1 (seconds_up (oldest + period - now)))
  freed :
      (t : ℕ)
      → now ≤ t
      → oldest + period ≤ t
      → (take_from_window hits t limit period).allowed ≡ true
  full :
      (t : ℕ)
      → now ≤ t
      → t < oldest + period
      → (take_from_window hits t limit period).allowed ≡ false

count-later :
    (hits : List ℕ) (now t period : ℕ)
    → now ≤ t
    → count (is_recent t period) hits ≡ count (is_recent t period) (recent_hits hits now period)
count-later hits now t period h = omega (
  arith,
  length-recent_hits hits t period,
  length-recent_hits (recent_hits hits now period) t period,
  ap length (recent_hits-recent_hits hits now t period h),
)

-- A refusal of a window that holds at most `limit` hits finds exactly `limit` recent ones.
full_window :
    (hits : List ℕ) (now limit period : ℕ)
    → length hits ≤ limit
    → (take_from_window hits now limit period).allowed ≡ false
    → length (recent_hits hits now period) ≡ limit
full_window hits now limit period h refused = ground (
  arith,
  take-allowed_iff hits now limit period,
  length-recent_hits hits now period,
  count-le-length (is_recent now period) hits,
)

recent_hits-All :
    (hits : List ℕ) (now period : ℕ) → All (λ a. now < a + period) (recent_hits hits now period)
unfolding recent_hits
recent_hits-All hits now period =
    All-sort earlier (λ a. now < a + period) (filter (is_recent now period) hits)
      (filter-All (λ a. now < a + period) (is_recent now period) hits (λ a k. ground arith))

take_refused_retry :
    (hits : List ℕ) (now limit period : ℕ)
    → (take_from_window hits now limit period).allowed ≡ false
    → (take_from_window hits now limit period).retry_after_seconds
      ≡ retry_after now period (head? (recent_hits hits now period))
unfolding take_from_window
take_refused_retry hits now limit period h = ground arith

module _ (hits : List ℕ) (now limit period : ℕ) (some_allowed : 0 < limit)
    (fits : length hits ≤ limit)
    (refused : (take_from_window hits now limit period).allowed ≡ false) where
  Refusal-of :
      (recent : List ℕ)
      → recent_hits hits now period ≡ recent
      → IsSorted earlier recent
      → All (λ a. now < a + period) recent
      → Refusal hits now limit period
  Refusal-of [] e s h =
      absurd (omega (arith, full_window hits now limit period fits refused, ap length e))
  Refusal-of (o ∷ rest) e s h = record {
    oldest = o;
    within = h.0;
    advice = take_refused_retry hits now limit period refused ∙ rw e;
    freed = λ t p q.
        (take-allowed_iff hits t limit period).1
          (omega (arith, count-at t p, count-recent_freed o t period rest q, full_size));
    full = λ t p q. elim (Bool-cases (take_from_window hits t limit period).allowed) [
      | inl yes_ ↦ absurd (
          omega (
            arith,
            (take-allowed_iff hits t limit period).0 yes_,
            count-at t p,
            count-recent_full o t period rest s.0 q,
            full_size,
          ))
      | inr no_ ↦ no_
    ];
  }
    where
      full_size : length (o ∷ rest) ≡ limit
      full_size = sym (ap length e) ∙ full_window hits now limit period fits refused

      count-at :
          (t : ℕ)
          → now ≤ t
          → count (is_recent t period) hits ≡ count (is_recent t period) (o ∷ rest)
      count-at t p = count-later hits now t period p ∙ ap (count (is_recent t period)) e

  refusal : Refusal hits now limit period
  refusal =
      Refusal-of (recent_hits hits now period) refl (recent_hits-IsSorted hits now period)
        (recent_hits-All hits now period)

  -- The seconds that a refusal advises are the least: after them the question is allowed, and
  -- after any smaller whole number of seconds it is refused again. They are at least one.
  pub retry_after_least :
      (s : ℕ) × ((take_from_window hits now limit period).retry_after_seconds ≡ some s)
      × (1 ≤ s)
      × ((take_from_window hits (now + 1000 * s) limit period).allowed ≡ true)
      × ((k : ℕ) → k < s → (take_from_window hits (now + 1000 * k) limit period).allowed ≡ false)
  retry_after_least = (
    max 1 (seconds_up (oldest + period - now)),
    refusal.advice,
    omega arith,
    refusal.freed _ (omega arith) (omega (arith, refusal.within)),
    λ k h. refusal.full _ (omega arith) (omega (arith, refusal.within)),
  )
    where
      open refusal use {oldest}
