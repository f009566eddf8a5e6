-- ===== src/Deletion.antt =====
-- Deleting an account: apps/web/lib/account/deletion.ts, with the revocation request that it makes,
-- apps/web/lib/google-revocation.ts. What the database, the auth service and Google answer is the
-- argument `Services`; the calls made are returned in their order, the concurrent ones as listed.
mod Data
unfoldable pub use Data.*
pub mod Outcome
pub mod Calls
pub mod Retry
pub mod Route
mod Examples
use stseen.Prelude.{
  ℕ, ◌+◌, Bool, true, false, not, ◌&&◌, ◌||◌, List, [], ◌∷◌, ◌++◌, Option, none, some, map,
  if◌then◌else◌, ltb, leb, ◌==◌, any, Text, codes, text_eq,
}

-- What step 1 leaves: how many events were removed, whether that failed, and what is recorded.
pub record EventRemoval : Type 0 where
  pub events_removed : ℕ
  pub events_not_removed : Bool
  pub synced_events : SyncedEvents

abbrev or_zero : Option ℕ → ℕ
or_zero none = 0
or_zero (some n) = n

abbrev no_removal : ℕ → EventRemoval
no_removal any_events = record {
  events_removed = 0;
  events_not_removed = false;
  synced_events = if ltb 0 any_events then kept else no_events;
}

abbrev removal_result : ℕ → Option ℕ → EventRemoval
removal_result any_events none = record {
  events_removed = 0;
  events_not_removed = true;
  synced_events = not_removed;
}
removal_result any_events (some n) = record {
  events_removed = n;
  events_not_removed = false;
  synced_events = if ltb n any_events then kept else removed;
}

abbrev is_some {ℓ} : {A : Type ℓ} → Option A → Bool
is_some none = false
is_some (some a) = true

-- Step 1.
unfoldable pub remove_synced : Services → Bool → Option Text → ℕ → ℕ → List Effect × EventRemoval
remove_synced s asked calendar active any_events =
    if asked && is_some calendar && ltb 0 active
    then (remove_events_call ∷ [], removal_result any_events s.remove_events)
    else ([], no_removal any_events)

pub record RevocationAttempt : Type 0 where
  pub provider : Provider
  pub outcome : AttemptOutcome
  pub token : Option Text

abbrev pub connection : Provider → Option Text → List (Provider × Text)
connection p none = []
connection p (some ciphertext) = (p, ciphertext) ∷ []

abbrev attempt_token : Services → Provider → Option Text → List Effect × RevocationAttempt
attempt_token s p none = ([], record { provider = p; outcome = undecryptable; token = none })
attempt_token s p (some token) = (
  revoke_call p token ∷ [],
  record {
    provider = p;
    outcome = google (revoke_google_token (s.revoke token));
    token = some token;
  },
)

-- Step 2: one attempt for each connection.
unfoldable pub attempts_of :
    Services → List (Provider × Text) → List Effect × List RevocationAttempt
attempts_of s [] = ([], [])
attempts_of s ((p, ciphertext) ∷ rest) =
    let (calls, attempt) = attempt_token s p (s.decrypt p ciphertext) in
    let (calls', attempts) = attempts_of s rest in (calls ++ calls', attempt ∷ attempts)

abbrev was_revoked : AttemptOutcome → Bool
was_revoked (google revoked) = true
was_revoked (google already_invalid) = false
was_revoked (google unreachable) = false
was_revoked (google refused) = false
was_revoked undecryptable = false

-- `attempts.find((attempt) => attempt.provider === provider)?.outcome`
unfoldable pub find_outcome : Provider → List RevocationAttempt → Option AttemptOutcome
find_outcome p [] = none
find_outcome p (a ∷ rest) =
    if same_provider a.provider p then some a.outcome else find_outcome p rest

abbrev is_confirmed : StoredRevocation → Bool
is_confirmed stored_revoked = true
is_confirmed stored_already_invalid = true
is_confirmed not_connected = false
is_confirmed unconfirmed = false
is_confirmed not_revocable = false

abbrev pending_token : Provider → Option Text → List (Provider × Text)
pending_token p none = []
pending_token p (some []) = []
pending_token p (some (c ∷ token)) = (p, c ∷ token) ∷ []

-- The attempts that Google did not answer, with their tokens.
unfoldable pub pending_of : List RevocationAttempt → List (Provider × Text)
pending_of [] = []
pending_of (a ∷ rest) = elim a.outcome [
  | google unreachable ↦ pending_token a.provider a.token ++ pending_of rest
  | _ ↦ pending_of rest
]

abbrev is_not_found : Option ℕ → Bool
is_not_found none = false
is_not_found (some status) = status == 404

check_user : UserCheck → Bool
check_user thrown = false
check_user (error status) = is_not_found status
check_user (user found) = not found

-- `authUserDeleted`
unfoldable pub auth_user_deleted : Services → List Effect × Bool
unfolding check_user
auth_user_deleted s = elim s.delete_user [
  | thrown ↦ (delete_user_call ∷ [], false)
  | ok _ ↦ (delete_user_call ∷ [], true)
  | error ↦ (delete_user_call ∷ get_user_call ∷ [], check_user s.get_user)
]

abbrev id_of : Answer (Option Text) → Option Text
id_of thrown = none
id_of error = none
id_of (ok id) = id

abbrev is_nil {ℓ} : {A : Type ℓ} → List A → Bool
is_nil [] = true
is_nil (x ∷ xs) = false

-- Step 6, whose failure to register is swallowed.
abbrev deferred : Services → List (Provider × Text) → List Effect
deferred s pending =
    if is_nil pending || not s.can_defer then [] else defer_call pending (id_of s.finish) ∷ []

-- Steps 5 and 6, once the auth user is gone.
unfoldable pub finish_deletion : Services → EventRemoval → List RevocationAttempt → Run
finish_deletion s events attempts = (
  finish_call (stored_revocation (find_outcome google_calendar attempts))
        (stored_revocation (find_outcome gmail attempts)) events.synced_events
      ∷ deferred s (pending_of attempts),
  deleted (any (λ a. not (is_confirmed (stored_revocation (some a.outcome)))) attempts)
      (is_kept events.synced_events) events.events_not_removed,
)
  where
    is_kept : SyncedEvents → Bool
    is_kept kept = true
    is_kept no_events = false
    is_kept removed = false
    is_kept not_removed = false

-- Step 4.
unfoldable pub delete_auth_user : Services → EventRemoval → List RevocationAttempt → Run
unfolding auth_user_deleted finish_deletion
delete_auth_user s events attempts =
    let (calls, gone) = auth_user_deleted s in
    after_calls calls (
      if gone
      then finish_deletion s events attempts
      else ([], failed 500 sign_in_not_deleted 0 false))

-- Step 3.
unfoldable pub delete_rows : Services → EventRemoval → List RevocationAttempt → Run
unfolding delete_auth_user
delete_rows s events attempts = after_calls (delete_data_call ∷ []) (elim s.delete_data [
  | thrown ↦ ([], escaped)
  | error ↦ (
    [],
    failed 500 deletion_failed events.events_removed (any (λ a. was_revoked a.outcome) attempts),
  )
  | ok _ ↦ delete_auth_user s events attempts
])

unfoldable pub delete_connected :
    Services → Bool → (calendar gmail : Option Text) → (active any_events : ℕ) → Run
unfolding remove_synced attempts_of delete_rows
delete_connected s asked calendar gmail_row active any_events =
    let (calls, events) = remove_synced s asked calendar active any_events in
    let (calls', attempts) =
      attempts_of s (connection google_calendar calendar ++ connection gmail gmail_row) in
    after_calls calls (after_calls calls' (delete_rows s events attempts))

abbrev is_thrown : {A : Type 0} → Answer A → Bool
is_thrown thrown = true
is_thrown error = false
is_thrown (ok a) = false

abbrev is_failed : {A : Type 0} → Answer A → Bool
is_failed thrown = false
is_failed error = true
is_failed (ok a) = false

abbrev row_of : Answer (Option Text) → Option Text
row_of thrown = none
row_of error = none
row_of (ok row) = row

abbrev count_of : Answer (Option ℕ) → ℕ
count_of thrown = 0
count_of error = 0
count_of (ok n) = or_zero n

-- `Promise.all` of the four reads: an exception of any comes before an error in any.
unfoldable pub reads_thrown : Services → Bool
reads_thrown s =
    is_thrown s.calendar
    || is_thrown s.gmail_row
    || is_thrown s.active_events
    || is_thrown s.any_events

unfoldable pub reads_failed : Services → Bool
reads_failed s =
    is_failed s.calendar
    || is_failed s.gmail_row
    || is_failed s.active_events
    || is_failed s.any_events

-- `deleteAccount`
unfoldable pub delete_account : Services → Bool → Run
unfolding delete_connected
delete_account s remove_synced_events =
    if reads_thrown s
    then ([], escaped)
    else if reads_failed s
    then ([], failed 500 deletion_failed 0 false)
    else delete_connected s remove_synced_events (row_of s.calendar) (row_of s.gmail_row)
        (count_of s.active_events) (count_of s.any_events)
