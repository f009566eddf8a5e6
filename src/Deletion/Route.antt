-- ===== src/Deletion/Route.antt =====
-- The handler that deletes an account, apps/web/app/api/auth/delete-account/route.ts, and the notes
-- of the page it leads to, apps/web/lib/account/policy.ts.
pub mod Laws
use stseen.Auth.Routes.{AuthRequest, same_origin}
use stseen.Deletion.{
  Services, Effect, DeletionError, deletion_failed, DeletionResult, escaped, failed, deleted,
  delete_account,
}
use stseen.Prelude.{
  ℕ, Bool, true, false, not, ◌&&◌, ◌||◌, List, [], ◌∷◌, ◌++◌, Option, none, some, if◌then◌else◌,
  Text, codes, text_eq, head?,
}
use stseen.Prelude.Words.{is_space, trim}

abbrev pub delete_confirmation_phrase : Text
delete_confirmation_phrase = codes "delete my account"

-- `s.replace(/\s+/g, " ")`; `in_run` is whether white space came just before.
abbrev collapse : (in_run : Bool) → Text → Text
collapse in_run [] = []
collapse true (c ∷ s) = if is_space c then collapse true s else c ∷ collapse false s
collapse false (c ∷ s) = if is_space c then 32 ∷ collapse true s else c ∷ collapse false s

-- `confirmationMatches` on a string.
unfoldable pub confirmation_matches : (Text → Text) → Text → Bool
confirmation_matches lower value =
    text_eq (lower (collapse false (trim value))) delete_confirmation_phrase

-- `DeletedPageNotes`
pub record DeletedPageNotes : Type 0 where
  pub google_not_revoked : Bool
  pub events_kept : Bool
  pub events_not_removed : Bool

abbrev events_note : DeletedPageNotes → List (Text × Text)
events_note n =
    if n.events_not_removed
    then (codes "events", codes "not_removed") ∷ []
    else if n.events_kept
    then (codes "events", codes "kept") ∷ []
    else []

-- `deletedPagePath`, the parameters of its query.
unfoldable pub deleted_page_path : DeletedPageNotes → List (Text × Text)
deleted_page_path n =
    (if n.google_not_revoked then (codes "google", codes "not_revoked") ∷ [] else [])
    ++ events_note n

abbrev param : Text → List (Text × Text) → Option Text
param key [] = none
param key ((k, value) ∷ rest) = if text_eq k key then some value else param key rest

abbrev is_value : Text → Option Text → Bool
is_value value none = false
is_value value (some v) = text_eq v value

-- `deletedPageNotes`
unfoldable pub deleted_page_notes : List (Text × Text) → DeletedPageNotes
deleted_page_notes params = record {
  google_not_revoked = is_value (codes "not_revoked") (param (codes "google") params);
  events_kept = is_value (codes "kept") (param (codes "events") params);
  events_not_removed = is_value (codes "not_removed") (param (codes "events") params);
}

-- What the body's schema lets through.
pub record DeleteBody : Type 0 where
  pub confirmation : Text
  pub remove_synced_events : Option Bool

pub data DeleteReply : Type 0 where
  supabase_unavailable cross_origin invalid_request confirmation_mismatch unauthorized
        account_deletion_unavailable :
      DeleteReply
  not_deleted :
      (status : ℕ) → DeletionError → (events_removed : ℕ) → (google_revoked : Bool) → DeleteReply
  account_deleted : (query : List (Text × Text)) → (google_not_confirmed : Bool) → DeleteReply

abbrev or_false : Option Bool → Bool
or_false none = false
or_false (some b) = b

abbrev reply_to : DeletionResult → DeleteReply
reply_to escaped = not_deleted 500 deletion_failed 0 false
reply_to (failed status error n google_revoked) = not_deleted status error n google_revoked
reply_to (deleted google kept not_removed) =
    account_deleted
      (deleted_page_path (record {
        google_not_revoked = google;
        events_kept = kept;
        events_not_removed = not_removed;
      }))
      google

abbrev delete_for : Services → Bool → List Effect × DeleteReply
delete_for s remove = let (calls, result) = delete_account s remove in (calls, reply_to result)

abbrev with_session : Bool → Services → Bool → Option Text → List Effect × DeleteReply
with_session service_role s remove none = ([], unauthorized)
with_session service_role s remove (some []) = ([], unauthorized)
with_session service_role s remove (some (c ∷ id)) =
    if service_role then delete_for s remove else ([], account_deletion_unavailable)

abbrev with_body :
    (Text → Text) → Bool → Services → Option Text → Option DeleteBody → List Effect × DeleteReply
with_body lower service_role s user none = ([], invalid_request)
with_body lower service_role s user (some body) =
    if not (confirmation_matches lower body.confirmation)
    then ([], confirmation_mismatch)
    else with_session service_role s (or_false body.remove_synced_events) user

-- `POST` of delete-account. `user` is the id of the session's user, `none` where there is none or
-- the auth service throws; `service_role` is whether the deployment can delete accounts.
unfoldable pub delete_route :
    (Text → Text)
    → (Text → Option Text)
    → AuthRequest
    → Option DeleteBody
    → Option Text
    → (service_role : Bool) → Services
    → List Effect × DeleteReply
delete_route lower origin_of r body user service_role s =
    if not r.configured
    then ([], supabase_unavailable)
    else if not (same_origin origin_of r)
    then ([], cross_origin)
    else with_body lower service_role s user body
