-- ===== src/Deletion/Data.antt =====
-- What a deletion asks for and what it comes to: the answers of the services, the calls made and the
-- result; with the revocation request, apps/web/lib/google-revocation.ts.
use stseen.Prelude.{
  ℕ, Bool, true, false, ◌&&◌, ◌||◌, List, ◌++◌, Option, none, some, if◌then◌else◌, leb, ◌==◌, Text,
  codes, text_eq,
}

pub data Provider : Type 0 where
  google_calendar gmail : Provider

abbrev pub same_provider : Provider → Provider → Bool
same_provider google_calendar google_calendar = true
same_provider google_calendar gmail = false
same_provider gmail google_calendar = false
same_provider gmail gmail = true

-- `RevocationOutcome`
pub data RevocationOutcome : Type 0 where
  revoked already_invalid unreachable refused : RevocationOutcome

-- What comes back from Google's revocation endpoint: no answer, or a status and the `error` of a
-- JSON body, if it has one.
pub data GoogleAnswer : Type 0 where
  no_answer : GoogleAnswer
  answer : (status : ℕ) → (error : Option Text) → GoogleAnswer

-- `response.ok`
abbrev pub is_ok : ℕ → Bool
is_ok status = leb 200 status && leb status 299

abbrev is_error : Text → Option Text → Bool
is_error code none = false
is_error code (some e) = text_eq e code

-- `revokeGoogleToken`
unfoldable pub revoke_google_token : GoogleAnswer → RevocationOutcome
revoke_google_token no_answer = unreachable
revoke_google_token (answer status error) =
    if is_ok status
    then revoked
    else if status == 408 || status == 429 || leb 500 status
    then unreachable
    else if status == 400 && is_error (codes "invalid_token") error
    then already_invalid
    else refused

-- An attempt's outcome: Google's, or a token that does not decrypt.
pub data AttemptOutcome : Type 0 where
  google : RevocationOutcome → AttemptOutcome
  undecryptable : AttemptOutcome

pub data StoredRevocation : Type 0 where
  not_connected stored_revoked stored_already_invalid unconfirmed not_revocable : StoredRevocation

-- `storedRevocation`
unfoldable pub stored_revocation : Option AttemptOutcome → StoredRevocation
stored_revocation none = not_connected
stored_revocation (some (google revoked)) = stored_revoked
stored_revocation (some (google already_invalid)) = stored_already_invalid
stored_revocation (some (google unreachable)) = unconfirmed
stored_revocation (some (google refused)) = not_revocable
stored_revocation (some undecryptable) = not_revocable

pub data SyncedEvents : Type 0 where
  no_events kept removed not_removed : SyncedEvents

-- The answer of a client call: an exception, an error in the result, or the data.
pub data Answer (A : Type 0) : Type 0 where
  thrown : Answer A
  error : Answer A
  ok : A → Answer A

-- The answer of `getUserById`.
pub data UserCheck : Type 0 where
  thrown : UserCheck
  error : (status : Option ℕ) → UserCheck
  user : (found : Bool) → UserCheck

-- All that the deletion asks of others. `decrypt` and `remove_events` are `none` where they throw.
pub record Services : Type 0 where
  pub calendar : Answer (Option Text)
  pub gmail_row : Answer (Option Text)
  pub active_events : Answer (Option ℕ)
  pub any_events : Answer (Option ℕ)
  pub remove_events : Option ℕ
  pub decrypt : Provider → Text → Option Text
  pub revoke : Text → GoogleAnswer
  pub delete_data : Answer (Unit {0})
  pub delete_user : Answer (Unit {0})
  pub get_user : UserCheck
  pub finish : Answer (Option Text)
  pub can_defer : Bool

pub data Effect : Type 0 where
  remove_events_call : Effect
  revoke_call : Provider → (token : Text) → Effect
  delete_data_call : Effect
  delete_user_call : Effect
  get_user_call : Effect
  finish_call : (calendar gmail : StoredRevocation) → SyncedEvents → Effect
  defer_call : List (Provider × Text) → (deletion_id : Option Text) → Effect

pub data DeletionError : Type 0 where
  deletion_failed sign_in_not_deleted : DeletionError

-- `AccountDeletionResult`, or the exception that leaves `deleteAccount`.
pub data DeletionResult : Type 0 where
  escaped : DeletionResult
  failed :
      (status : ℕ) → DeletionError → (events_removed : ℕ) → (google_revoked : Bool) → DeletionResult
  deleted : (google_not_revoked events_kept events_not_removed : Bool) → DeletionResult

abbrev pub Run : Type 0
Run = List Effect × DeletionResult

abbrev pub after_calls : List Effect → Run → Run
after_calls calls (rest, r) = (calls ++ rest, r)
