-- ===== src/Deletion/Retry.antt =====
-- `retryRevocations`: after the response, the tokens that Google did not answer about are offered
-- to it again, in three rounds.
pub mod Told
pub mod Laws
use stseen.Deletion.{
  Provider, RevocationOutcome, revoked, already_invalid, unreachable, refused, GoogleAnswer,
  revoke_google_token, google, StoredRevocation, stored_revocation,
}
use stseen.Prelude.{
  ℕ, suc, ◌+◌, Bool, true, false, List, [], ◌∷◌, ◌++◌, Option, none, some, map, if◌then◌else◌, Text,
}

-- `REVOCATION_RETRY_DELAYS_MS`
abbrev pub retry_delays_ms : List ℕ
retry_delays_ms = 1000 ∷ 4000 ∷ 10000 ∷ []

abbrev pub Pending : Type 0
Pending = Provider × Text

pub data RetryCall : Type 0 where
  wait : (ms : ℕ) → RetryCall
  offer : Provider → (token : Text) → RetryCall
  record_late : (deletion_id : Text) → Provider → StoredRevocation → RetryCall

abbrev pub is_unreachable : RevocationOutcome → Bool
is_unreachable unreachable = true
is_unreachable revoked = false
is_unreachable already_invalid = false
is_unreachable refused = false

-- `google round token` is the answer in that round.
module _ (google_answer : ℕ → Text → GoogleAnswer) (deletion_id : Option Text) where
  abbrev pub outcome_in : ℕ → Text → RevocationOutcome
  outcome_in round token = revoke_google_token (google_answer round token)

  unfoldable pub offers : List Pending → List RetryCall
  offers [] = []
  offers ((p, token) ∷ rest) = offer p token ∷ offers rest

  -- An empty id counts as none.
  abbrev pub late : Option Text → Provider → RevocationOutcome → List RetryCall
  late none p outcome = []
  late (some []) p outcome = []
  late (some (c ∷ id)) p outcome =
      record_late (c ∷ id) p (stored_revocation (some (google outcome))) ∷ []

  -- The inner loop: an outcome that Google gave is recorded, if there is a record to amend.
  unfoldable pub records : ℕ → List Pending → List RetryCall
  records round [] = []
  records round ((p, token) ∷ rest) =
      if is_unreachable (outcome_in round token)
      then records round rest
      else late deletion_id p (outcome_in round token) ++ records round rest

  unfoldable pub still_pending : ℕ → List Pending → List Pending
  still_pending round [] = []
  still_pending round ((p, token) ∷ rest) =
      if is_unreachable (outcome_in round token)
      then (p, token) ∷ still_pending round rest
      else still_pending round rest

  -- The outer loop, over the delays that are left; it ends early when nothing is pending.
  unfoldable pub retry_rounds : ℕ → List ℕ → List Pending → List RetryCall
  unfolding offers records still_pending
  retry_rounds round [] remaining = []
  retry_rounds round (delay ∷ delays) [] = []
  retry_rounds round (delay ∷ delays) (item ∷ remaining) =
      wait delay
      ∷ (offers (item ∷ remaining)
          ++ (records round (item ∷ remaining)
              ++ retry_rounds (suc round) delays (still_pending round (item ∷ remaining))))

  unfoldable pub retry_revocations : List Pending → List RetryCall
  unfolding retry_rounds
  retry_revocations pending = retry_rounds 0 retry_delays_ms pending
