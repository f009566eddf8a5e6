-- ===== src/Deletion/Retry/Told.antt =====
-- The retries record what Google answered.
use stseen.Deletion.{
  Provider, gmail, google_calendar, same_provider, StoredRevocation, not_connected, stored_revoked,
  stored_already_invalid, unconfirmed, not_revocable, stored_revocation, GoogleAnswer, no_answer,
  answer, revoke_google_token, google,
}
use stseen.Deletion.Retry.{
  Pending, RetryCall, wait, offer, record_late, offers, records, still_pending, retry_rounds,
  is_unreachable, late,
}
use stseen.Prelude.{
  ℕ, suc, ◌==◌, leb, ltb, ◌≡◌, refl, Bool, true, false, not, ◌&&◌, List, [], ◌∷◌, ◌++◌, Option,
  none, some, any, all, Text, text_eq, text_eq_refl, codes, arith, Bool-cases, inl, inr,
}

abbrev is_invalid_token : ℕ → Option Text → Bool
is_invalid_token status none = false
is_invalid_token status (some error) = status == 400 && text_eq error (codes "invalid_token")

-- Whether an answer of Google's says what is recorded.
abbrev pub tells : GoogleAnswer → StoredRevocation → Bool
tells no_answer stored = false
tells (answer status error) not_connected = false
tells (answer status error) unconfirmed = false
tells (answer status error) stored_revoked = leb 200 status && ltb status 300
tells (answer status error) stored_already_invalid = is_invalid_token status error
tells (answer status error) not_revocable =
    not (is_invalid_token status error)
    && not (leb 200 status && ltb status 300)
    && not (status == 408)
    && not (status == 429)
    && ltb status 500

abbrev pub is_for : Provider → Pending → Bool
is_for p (q, token) = same_provider q p

abbrev is_id : Option Text → Text → Bool
is_id none id = false
is_id (some []) id = false
is_id (some (c ∷ t)) id = text_eq id (c ∷ t)

tells_lem :
    (a : GoogleAnswer)
    → is_unreachable (revoke_google_token a) ≡ false
    → tells a (stored_revocation (some (google (revoke_google_token a)))) ≡ true
unfolding revoke_google_token stored_revocation
tells_lem no_answer h = cc
tells_lem (answer status none) h = ground arith
tells_lem (answer status (some error)) h = ground arith

all_mono :
    (p q : RetryCall → Bool) (calls : List RetryCall)
    → ((call : RetryCall) → p call ≡ true → q call ≡ true)
    → all p calls ≡ true
    → all q calls ≡ true
all_mono p q [] f h = refl
all_mono p q (call ∷ calls) f h = ground (arith, f call, all_mono p q calls f)

any_mono :
    {A : Type 0} (p q : A → Bool) (xs : List A)
    → ((x : A) → p x ≡ true → q x ≡ true)
    → any p xs ≡ true
    → any q xs ≡ true
any_mono p q [] f h = h
any_mono p q (x ∷ xs) f h = ground (arith, f x, any_mono p q xs f)

all-append :
    (p : RetryCall → Bool) (xs ys : List RetryCall) → all p (xs ++ ys) ≡ (all p xs && all p ys)
all-append p [] ys = refl
all-append p (x ∷ xs) ys = ground (arith, all-append p xs ys)

abbrev rounds_from : ℕ → List ℕ → List ℕ
rounds_from round [] = []
rounds_from round (delay ∷ delays) = round ∷ rounds_from (suc round) delays

module _ (google_answer : ℕ → Text → GoogleAnswer) (deletion_id : Option Text) where
  -- Whether Google's answer about a token in one of the rounds says what is recorded.
  abbrev tells_of : List ℕ → Provider → StoredRevocation → Pending → Bool
  tells_of rounds p stored item =
      is_for p item && any (λ round. tells (google_answer round item.1) stored) rounds

  -- A call that records what Google said of a pending token in one of the rounds, in the record of
  -- this deletion, or that records nothing.
  abbrev pub is_told : List ℕ → List Pending → RetryCall → Bool
  is_told rounds pending (wait ms) = true
  is_told rounds pending (offer p token) = true
  is_told rounds pending (record_late id p stored) =
      is_id deletion_id id && any (tells_of rounds p stored) pending

  tells_of-still_pending :
      (round : ℕ) (rounds : List ℕ) (p : Provider) (stored : StoredRevocation) (xs : List Pending)
      → any (tells_of rounds p stored) (still_pending google_answer deletion_id round xs) ≡ true
      → any (tells_of (round ∷ rounds) p stored) xs ≡ true
  unfolding still_pending
  tells_of-still_pending round rounds p stored [] h = h
  tells_of-still_pending round rounds p stored ((q, token) ∷ xs) h =
      ground (arith, tells_of-still_pending round rounds p stored xs)

  is_told-still_pending :
      (round : ℕ) (rounds : List ℕ) (pending : List Pending) (call : RetryCall)
      → is_told rounds (still_pending google_answer deletion_id round pending) call ≡ true
      → is_told (round ∷ rounds) pending call ≡ true
  is_told-still_pending round rounds pending (wait ms) h = refl
  is_told-still_pending round rounds pending (offer p token) h = refl
  is_told-still_pending round rounds pending (record_late id p stored) h =
      ground (arith, tells_of-still_pending round rounds p stored pending)

  is_told-more :
      (rounds : List ℕ) (item : Pending) (pending : List Pending) (call : RetryCall)
      → is_told rounds pending call ≡ true
      → is_told rounds (item ∷ pending) call ≡ true
  is_told-more rounds item pending (wait ms) h = refl
  is_told-more rounds item pending (offer p token) h = refl
  is_told-more rounds item pending (record_late id p stored) h = ground arith

same_provider_refl : (p : Provider) → same_provider p p ≡ true
same_provider_refl gmail = refl
same_provider_refl google_calendar = refl

late-told :
    (google_answer : ℕ → Text → GoogleAnswer) (deletion_id : Option Text) (round : ℕ)
    (rounds : List ℕ) (q : Provider) (token : Text) (xs : List Pending)
    → is_unreachable (revoke_google_token (google_answer round token)) ≡ false
    → all (is_told google_answer deletion_id (round ∷ rounds) ((q, token) ∷ xs)) (
        late google_answer deletion_id deletion_id q
          (revoke_google_token (google_answer round token)))
      ≡ true
late-told google_answer none round rounds q token xs h = refl
late-told google_answer (some []) round rounds q token xs h = refl
late-told google_answer (some (c ∷ id)) round rounds q token xs h =
    rw (same_provider_refl q, text_eq_refl (c ∷ id), tells_lem (google_answer round token) h) refl

module _ (google_answer : ℕ → Text → GoogleAnswer) (deletion_id : Option Text) where
  records-told :
      (round : ℕ) (rounds : List ℕ) (xs : List Pending)
      → all
          (is_told google_answer deletion_id (round ∷ rounds) xs)
          (records google_answer deletion_id round xs)
        ≡ true
  unfolding records
  records-told round rounds [] = refl
  records-told round rounds ((q, token) ∷ xs) =
      let told = is_told google_answer deletion_id (round ∷ rounds) ((q, token) ∷ xs) in
      let rest =
        all_mono (is_told google_answer deletion_id (round ∷ rounds) xs) told
          (records google_answer deletion_id round xs)
          (is_told-more google_answer deletion_id (round ∷ rounds) (q, token) xs)
          (records-told round rounds xs) in
      elim (Bool-cases (is_unreachable (revoke_google_token (google_answer round token)))) [
        | inl e ↦ rw e rest
        | inr e ↦
            rw
              (
                e,
                all-append told (
                    late google_answer deletion_id deletion_id q
                      (revoke_google_token (google_answer round token))),
                late-told google_answer deletion_id round rounds q token xs e,
              )
              rest
      ]

  offers-told :
      (rounds : List ℕ) (pending xs : List Pending)
      → all (is_told google_answer deletion_id rounds pending) (offers google_answer deletion_id xs)
        ≡ true
  unfolding offers
  offers-told rounds pending [] = refl
  offers-told rounds pending ((q, token) ∷ xs) = offers-told rounds pending xs

  pub told-retry_rounds :
      (round : ℕ) (delays : List ℕ) (xs : List Pending)
      → all
          (is_told google_answer deletion_id (rounds_from round delays) xs)
          (retry_rounds google_answer deletion_id round delays xs)
        ≡ true
  unfolding retry_rounds
  told-retry_rounds round [] xs = refl
  told-retry_rounds round (d ∷ ds) [] = refl
  told-retry_rounds round (d ∷ ds) (x ∷ xs) =
      let left = still_pending google_answer deletion_id round (x ∷ xs) in
      let rounds = rounds_from (suc round) ds in
      let told = is_told google_answer deletion_id (round ∷ rounds) (x ∷ xs) in
      rw
        (
          all-append told (offers google_answer deletion_id (x ∷ xs)),
          all-append told (records google_answer deletion_id round (x ∷ xs)),
          offers-told (round ∷ rounds) (x ∷ xs) (x ∷ xs),
          records-told round rounds (x ∷ xs),
        )
        (all_mono (is_told google_answer deletion_id rounds left) told
          (retry_rounds google_answer deletion_id (suc round) ds left)
          (is_told-still_pending google_answer deletion_id round rounds (x ∷ xs))
          (told-retry_rounds (suc round) ds left))
