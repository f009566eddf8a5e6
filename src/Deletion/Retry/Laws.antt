-- ===== src/Deletion/Retry/Laws.antt =====
-- What the retries can cost and what they can record.
use stseen.Deletion.{Provider, same_provider, stored_revocation, GoogleAnswer}
use stseen.Deletion.Retry.{
  Pending, RetryCall, wait, offer, record_late, offers, records, still_pending, retry_rounds,
  retry_revocations, retry_delays_ms,
}
use stseen.Deletion.Retry.Told.{is_for, is_told, told-retry_rounds}
use stseen.Prelude.{
  ℕ, suc, ◌+◌, ◌*◌, ◌≤◌, ◌≡◌, refl, Bool, true, false, List, [], ◌∷◌, ◌++◌, Option, count, all,
  Text, arith, count-append,
}

-- The time that the calls wait in all, in milliseconds.
abbrev pub waited : List RetryCall → ℕ
waited [] = 0
waited (wait ms ∷ calls) = ms + waited calls
waited (offer p t ∷ calls) = waited calls
waited (record_late i p s ∷ calls) = waited calls

abbrev pub is_offer : Provider → RetryCall → Bool
is_offer p (wait ms) = false
is_offer p (offer q t) = same_provider q p
is_offer p (record_late i q s) = false

abbrev pub is_record : Provider → RetryCall → Bool
is_record p (wait ms) = false
is_record p (offer q t) = false
is_record p (record_late i q s) = same_provider q p

abbrev total : List ℕ → ℕ
total [] = 0
total (d ∷ ds) = d + total ds

-- `n` times `k`, as a sum.
abbrev times : List ℕ → ℕ → ℕ
times [] k = 0
times (d ∷ ds) k = k + times ds k

times_mono : (ds : List ℕ) (j k : ℕ) → j ≤ k → times ds j ≤ times ds k
times_mono [] j k h = omega arith
times_mono (d ∷ ds) j k h = omega (arith, times_mono ds j k h)

waited-append : (xs ys : List RetryCall) → waited (xs ++ ys) ≡ waited xs + waited ys
waited-append [] ys = omega arith
waited-append (wait ms ∷ xs) ys = omega (arith, waited-append xs ys)
waited-append (offer p t ∷ xs) ys = waited-append xs ys
waited-append (record_late i p s ∷ xs) ys = waited-append xs ys

module _ (google_answer : ℕ → Text → GoogleAnswer) (deletion_id : Option Text) where
  abbrev Small : List Pending → List RetryCall → List RetryCall → Type 0
  Small xs offered recorded = (waited offered ≡ 0) × (waited recorded ≡ 0)

  offers-Small :
      (round : ℕ) (xs : List Pending)
      → Small xs (offers google_answer deletion_id xs) (records google_answer deletion_id round xs)
  unfolding offers records stored_revocation
  offers-Small round [] = (refl, refl)
  offers-Small round ((p, token) ∷ rest) = ground (arith, offers-Small round rest)

  -- What is offered, recorded and left pending of a provider's tokens in one round.
  round-counts :
      (p : Provider) (round : ℕ) (xs : List Pending)
      → let n = count (is_for p) xs in
        (count (is_offer p) (offers google_answer deletion_id xs) ≡ n)
        × (count (is_record p) (offers google_answer deletion_id xs) ≡ 0)
        × (count (is_offer p) (records google_answer deletion_id round xs) ≡ 0)
        × (count (is_record p) (records google_answer deletion_id round xs)
              + count (is_for p) (still_pending google_answer deletion_id round xs)
            ≤ n)
  unfolding offers records still_pending
  round-counts p round [] = (refl, refl, refl, omega arith)
  round-counts p round ((q, token) ∷ rest) = ground (arith, round-counts p round rest)

  waited-round :
      (round delay : ℕ) (xs : List Pending) (rest : List RetryCall)
      → waited (
          wait delay
          ∷ (offers google_answer deletion_id xs
              ++ (records google_answer deletion_id round xs ++ rest)))
        ≡ delay + waited rest
  waited-round round delay xs rest =
      rw
        (
          waited-append (offers google_answer deletion_id xs),
          waited-append (records google_answer deletion_id round xs) rest,
        )
        (omega (arith, (offers-Small round xs).0, (offers-Small round xs).1))

  waited-retry_rounds :
      (round : ℕ) (delays : List ℕ) (xs : List Pending)
      → waited (retry_rounds google_answer deletion_id round delays xs) ≤ total delays
  unfolding retry_rounds
  waited-retry_rounds round [] xs = omega arith
  waited-retry_rounds round (d ∷ ds) [] = omega arith
  waited-retry_rounds round (d ∷ ds) (x ∷ xs) =
      let left = still_pending google_answer deletion_id round (x ∷ xs) in
      rw
        (waited-round round d (x ∷ xs) (retry_rounds google_answer deletion_id (suc round) ds left))
        (omega (arith, waited-retry_rounds (suc round) ds left))

  counts-round :
      (p : Provider) (round delay : ℕ) (xs : List Pending) (rest : List RetryCall)
      → let n = count (is_for p) xs in
        let left = count (is_for p) (still_pending google_answer deletion_id round xs) in
        let calls =
          wait delay
          ∷ (offers google_answer deletion_id xs
              ++ (records google_answer deletion_id round xs ++ rest)) in
        (count (is_offer p) calls ≡ n + count (is_offer p) rest)
        × (count (is_record p) calls + left ≤ n + count (is_record p) rest)
  counts-round p round delay xs rest =
      let both = records google_answer deletion_id round xs ++ rest in
      rw
        (
          count-append (is_offer p) (offers google_answer deletion_id xs) both,
          count-append (is_record p) (offers google_answer deletion_id xs) both,
          count-append (is_offer p) (records google_answer deletion_id round xs) rest,
          count-append (is_record p) (records google_answer deletion_id round xs) rest,
        )
        (let c = round-counts p round xs in (omega (arith, c.0, c.2), omega (arith, c.1, c.3)))

  counts-retry_rounds :
      (p : Provider) (round : ℕ) (delays : List ℕ) (xs : List Pending)
      → let n = count (is_for p) xs in
        let calls = retry_rounds google_answer deletion_id round delays xs in
        (count (is_offer p) calls ≤ times delays n) × (count (is_record p) calls ≤ n)
  unfolding retry_rounds
  counts-retry_rounds p round [] xs = (omega arith, omega arith)
  counts-retry_rounds p round (d ∷ ds) [] = (omega arith, omega arith)
  counts-retry_rounds p round (d ∷ ds) (x ∷ xs) =
      let left = still_pending google_answer deletion_id round (x ∷ xs) in
      let rest = retry_rounds google_answer deletion_id (suc round) ds left in
      let c = counts-round p round d (x ∷ xs) rest in
      let ih = counts-retry_rounds p (suc round) ds left in
      let fewer = round-counts p round (x ∷ xs) in
      (
        omega (
          arith,
          c.0,
          ih.0,
          times_mono ds (count (is_for p) left) (count (is_for p) (x ∷ xs))
              (omega (arith, fewer.3)),
        ),
        omega (arith, c.1, ih.1, fewer.3),
      )

  -- Whatever Google answers: the retries wait at most fifteen seconds in all, offer a provider's
  -- tokens at most three times, and amend the record at most once for each pending token. Each
  -- amendment is of the record of this deletion, which has one, and states what Google answered
  -- about a pending token of that provider in one of the three rounds: revoked for a status of 2xx,
  -- already invalid for 400 with `invalid_token`, not revocable for another status that is not
  -- 408, 429 or 5xx.
  pub retry_revocations-bounds :
      (p : Provider) (pending : List Pending)
      → let calls = retry_revocations google_answer deletion_id pending in
        (waited calls ≤ 15000)
        × (count (is_offer p) calls ≤ 3 * count (is_for p) pending)
        × (count (is_record p) calls ≤ count (is_for p) pending)
        × (all (is_told google_answer deletion_id (0 ∷ 1 ∷ 2 ∷ []) pending) calls ≡ true)
  unfolding retry_revocations
  retry_revocations-bounds p pending =
      let c = counts-retry_rounds p 0 retry_delays_ms pending in
      (
        omega (arith, waited-retry_rounds 0 retry_delays_ms pending),
        omega (arith, c.0),
        omega (arith, c.1),
        told-retry_rounds google_answer deletion_id 0 retry_delays_ms pending,
      )
