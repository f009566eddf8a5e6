-- ===== src/Deletion/Route/Laws.antt =====
-- What the handler lets through, and what its reply tells the user.
use stseen.Auth.Routes.{AuthRequest, same_origin}
use stseen.Deletion.{
  Services, DeletionResult, escaped, failed, deleted, delete_account, delete_connected, delete_rows,
  delete_auth_user, finish_deletion, remove_synced, row_of, count_of,
}
use stseen.Deletion.Outcome.{can_delete, is_deleted-delete_account}
use stseen.Deletion.Route.{
  DeleteBody, DeleteReply, account_deleted, delete_route, confirmation_matches, DeletedPageNotes,
  deleted_page_path, deleted_page_notes, or_false,
}
use stseen.Prelude.{
  ℕ, ◌≡◌, refl, subst, Bool, true, false, ◌&&◌, [], ◌∷◌, Option, none, some, Text, arith,
}

abbrev pub is_account_deleted : DeleteReply → Bool
is_account_deleted (account_deleted query google) = true
is_account_deleted _ = false

abbrev pub is_user : Option Text → Bool
is_user none = false
is_user (some []) = false
is_user (some (c ∷ id)) = true

abbrev pub confirms : (Text → Text) → Option DeleteBody → Bool
confirms lower none = false
confirms lower (some body) = confirmation_matches lower body.confirmation

-- The user is told that the account is deleted exactly when the request is of this origin and carries
-- the phrase, a session and a deployment that can delete are there, and the deletion succeeds.
pub delete_route-accepts :
    (lower : Text → Text) (origin_of : Text → Option Text) (r : AuthRequest)
    (body : Option DeleteBody) (user : Option Text) (service_role : Bool) (s : Services)
    → is_account_deleted (delete_route lower origin_of r body user service_role s).1 ≡ (
        r.configured
        && same_origin origin_of r
        && confirms lower body
        && is_user user
        && service_role
        && can_delete s)
unfolding delete_route
delete_route-accepts lower origin_of r none user service_role s = ground arith
delete_route-accepts lower origin_of r (some body) user service_role s =
    ground (arith, is_deleted-delete_account s (or_false body.remove_synced_events))

abbrev both_notes : DeletionResult → Bool
both_notes escaped = false
both_notes (failed status error n google) = false
both_notes (deleted google kept not_removed) = kept && not_removed

one_note :
    (s : Services) (asked : Bool) (calendar gmail : Option Text) (active any_events : ℕ)
    → both_notes (delete_connected s asked calendar gmail active any_events).1 ≡ false
unfolding delete_connected delete_rows delete_auth_user finish_deletion remove_synced
one_note s asked calendar gmail active any_events = ground arith

one_note-delete_account :
    (s : Services) (asked : Bool) → both_notes (delete_account s asked).1 ≡ false
unfolding delete_account
one_note-delete_account s asked = ground (
  arith,
  one_note s asked (row_of s.calendar) (row_of s.gmail_row) (count_of s.active_events)
      (count_of s.any_events),
)

notes_of_path :
    (google kept not_removed : Bool)
    → (kept && not_removed) ≡ false
    → let n : DeletedPageNotes = record {
      google_not_revoked = google;
      events_kept = kept;
      events_not_removed = not_removed;
    } in
      deleted_page_notes (deleted_page_path n) ≡ n
unfolding deleted_page_notes deleted_page_path
notes_of_path true true true h = absurd (ground arith)
notes_of_path false true true h = absurd (ground arith)
notes_of_path true true false h = refl
notes_of_path true false true h = refl
notes_of_path true false false h = refl
notes_of_path false true false h = refl
notes_of_path false false true h = refl
notes_of_path false false false h = refl

-- The page that a deleted account lands on reads back from its address exactly what the deletion
-- found: whether Google's access stands, and whether events are left.
pub deleted_page_notes-path :
    (s : Services) (asked : Bool) (google kept not_removed : Bool)
    → (delete_account s asked).1 ≡ deleted google kept not_removed
    → let n : DeletedPageNotes = record {
      google_not_revoked = google;
      events_kept = kept;
      events_not_removed = not_removed;
    } in
      deleted_page_notes (deleted_page_path n) ≡ n
deleted_page_notes-path s asked google kept not_removed h =
    notes_of_path google kept not_removed
      (subst (λ r. both_notes r ≡ false) h (one_note-delete_account s asked))
