-- ===== src/Deletion/Examples.antt =====
-- An account with both connections, of which Google answers for one, and the theorems at it.
use stseen.Deletion.{
  reads_thrown, reads_failed, stored_revocation, pending_of, find_outcome, Provider,
  google_calendar, gmail, GoogleAnswer, no_answer, answer, Answer, UserCheck, Services,
  delete_account, deleted, revoke_google_token, refused, unreachable, already_invalid,
  remove_events_call, revoke_call, delete_data_call, delete_user_call, finish_call, defer_call,
  not_revocable, stored_revoked, unconfirmed, removed, failed, sign_in_not_deleted,
}
use stseen.Deletion.Outcome.{
  is_deleted, can_delete, is_deleted-delete_account, google-IsRevoked_iff, IsRevoked,
  connections_of, says_not_revoked,
}
use stseen.Deletion.Calls.{is_delete_data, is_delete_user, is_finish, delete_account-calls}
use stseen.Deletion.Retry.{retry_revocations, wait, offer, record_late}
use stseen.Deletion.Retry.Laws.{waited, is_offer, is_record, retry_revocations-bounds}
use stseen.Auth.Routes.{AuthRequest, same_origin}
use stseen.Deletion.Route.{
  DeleteBody, account_deleted, delete_route, confirmation_matches, DeletedPageNotes,
  deleted_page_path, deleted_page_notes,
}
use stseen.Deletion.Route.Laws.{
  is_account_deleted, is_user, confirms, delete_route-accepts, deleted_page_notes-path,
}
use stseen.Deletion.Retry.Told.{is_for, is_told}
use stseen.Prelude.Words.{trim, is_space}
use stseen.Prelude.{
  Option, ℕ, ◌*◌, ◌≤◌, ◌≡◌, refl, ◌&&◌, ◌↔◌, true, false, List, [], ◌∷◌, none, some, if◌then◌else◌,
  ◌==◌, any, All, all, count, Text, codes,
}

abbrev google_for : Text → GoogleAnswer
google_for [] = no_answer
google_for (c ∷ token) = if c == 103 then no_answer else answer 200 none

-- Both tokens decrypt to what they are stored as; Google answers about the calendar's only.
abbrev account : Services
account = record {
  calendar = Answer.ok (some (codes "cal"));
  gmail_row = Answer.ok (some (codes "gm"));
  active_events = Answer.ok (some 2);
  any_events = Answer.ok (some 3);
  remove_events = some 3;
  decrypt = λ p token. some token;
  revoke = google_for;
  delete_data = Answer.ok tt;
  delete_user = Answer.ok tt;
  get_user = UserCheck.thrown;
  finish = Answer.ok (some (codes "id"));
  can_defer = true;
}

revoke_google_token_tests :
    (revoke_google_token (answer 400 (some (codes "invalid_token"))) ≡ already_invalid)
    × (revoke_google_token (answer 400 none) ≡ refused)
    × (revoke_google_token (answer 503 none) ≡ unreachable)
unfolding revoke_google_token
revoke_google_token_tests = (refl, refl, refl)

delete_account_test : delete_account account true ≡ (
  remove_events_call
      ∷ revoke_call google_calendar (codes "cal")
      ∷ revoke_call gmail (codes "gm")
      ∷ delete_data_call
      ∷ delete_user_call
      ∷ finish_call stored_revoked unconfirmed removed
      ∷ defer_call ((gmail, codes "gm") ∷ []) (some (codes "id"))
      ∷ [],
  deleted true false false,
)
unfolding delete_account reads_thrown reads_failed stored_revocation pending_of find_outcome
    revoke_google_token
delete_account_test = refl

-- The calendar's removal fails and the auth user's deletion too, but the user is gone already.
delete_account_failing_test :
    (delete_account
      (record account {
        remove_events = none;
        delete_user = Answer.error;
        get_user = UserCheck.user false;
      })
      true).1
    ≡ deleted true false true
unfolding delete_account reads_thrown reads_failed stored_revocation pending_of find_outcome
    revoke_google_token
delete_account_failing_test = refl

delete_account_kept_user_test :
    (delete_account
      (record account { delete_user = Answer.error; get_user = UserCheck.user true })
      true).1
    ≡ failed 500 sign_in_not_deleted 0 false
unfolding delete_account reads_thrown reads_failed stored_revocation pending_of find_outcome
    revoke_google_token
delete_account_kept_user_test = refl

is_deleted-delete_account_example : is_deleted (delete_account account false).1 ≡ can_delete account
is_deleted-delete_account_example = is_deleted-delete_account account false

google-IsRevoked_iff_example :
    (says_not_revoked (delete_account account true).1 ≡ false)
    ↔ All (IsRevoked account) (connections_of account)
unfolding delete_account reads_thrown reads_failed stored_revocation pending_of find_outcome
    revoke_google_token
google-IsRevoked_iff_example = google-IsRevoked_iff account true refl

delete_account-calls_example :
    let (calls, result) = delete_account account true in
    (any is_delete_user calls ≡ true → account.delete_data ≡ Answer.ok tt)
    × (any is_finish calls ≡ is_deleted result)
    × (is_deleted result ≡ true
        → (any is_delete_data calls ≡ true) × (any is_delete_user calls ≡ true))
delete_account-calls_example = delete_account-calls account true

-- Google answers about the token in the second round.
abbrev slow_google : ℕ → Text → GoogleAnswer
slow_google round token = if round == 0 then no_answer else answer 400 none

abbrev left : List (Provider × Text)
left = (gmail, codes "gm") ∷ []

retry_revocations_test :
    retry_revocations slow_google (some (codes "id")) left
    ≡ wait 1000
      ∷ offer gmail (codes "gm")
      ∷ wait 4000
      ∷ offer gmail (codes "gm")
      ∷ record_late (codes "id") gmail not_revocable
      ∷ []
unfolding retry_revocations revoke_google_token stored_revocation
retry_revocations_test = refl

retry_revocations-bounds_example :
    let calls = retry_revocations slow_google (some (codes "id")) left in
    (waited calls ≤ 15000)
    × (count (is_offer gmail) calls ≤ 3 * count (is_for gmail) left)
    × (count (is_record gmail) calls ≤ count (is_for gmail) left)
    × (all (is_told slow_google (some (codes "id")) (0 ∷ 1 ∷ 2 ∷ []) left) calls ≡ true)
retry_revocations-bounds_example =
    retry_revocations-bounds slow_google (some (codes "id")) gmail left

abbrev same_letters : Text → Text
same_letters s = s

abbrev site : Text → Option Text
site address = some (codes "https://1stseen.app")

abbrev request : AuthRequest
request = record {
  configured = true;
  origin = some (codes "https://1stseen.app");
  sec_fetch_site = none;
  url = codes "https://1stseen.app/api/auth/delete-account";
  fields = record { email = none; password = none; return_to = none; token_hash = []; type = [] };
}

abbrev body : DeleteBody
body = record { confirmation = codes " delete  my account"; remove_synced_events = some true }

delete_route_test :
    (delete_route same_letters site request (some body) (some (codes "u")) true account).1
    ≡ account_deleted ((codes "google", codes "not_revoked") ∷ []) true
unfolding delete_route same_origin confirmation_matches trim is_space deleted_page_path
    delete_account reads_thrown reads_failed stored_revocation pending_of find_outcome
    revoke_google_token
delete_route_test = refl

delete_route-accepts_example :
    is_account_deleted
      (delete_route same_letters site request (some body) (some (codes "u")) true account).1
    ≡ (request.configured
        && same_origin site request
        && confirms same_letters (some body)
        && is_user (some (codes "u"))
        && true
        && can_delete account)
delete_route-accepts_example =
    delete_route-accepts same_letters site request (some body) (some (codes "u")) true account

deleted_page_notes-path_example :
    let n : DeletedPageNotes = record {
      google_not_revoked = true;
      events_kept = false;
      events_not_removed = false;
    } in
    deleted_page_notes (deleted_page_path n) ≡ n
unfolding delete_account reads_thrown reads_failed stored_revocation pending_of find_outcome
    revoke_google_token
deleted_page_notes-path_example = deleted_page_notes-path account true true false false refl
