-- ===== src/Calendar/Google.antt =====
-- The requests to Google's calendar, the operations of the synchronisation made of them, the route
-- and the removal (apps/web/lib/google-calendar/google-api.ts,
-- apps/web/app/api/integrations/google-calendar/sync/route.ts).
use stseen.Calendar.{ExistingSync, Mapping, SyncOperations, Action, SyncResult}
use stseen.Calendar.Calls.{Outcome, done, thrown, bind, catch_status}
use stseen.Calendar.Event.{SelectedEvent, GoogleEvent, SourceKind}
use stseen.Prelude.{
  ℕ, Bool, true, false, ◌||◌, List, [], ◌∷◌, Option, none, some, if◌then◌else◌, ◌==◌, length, Text,
  text_eq, codes,
}

pub data Method : Type 0 where
  post : Method
  put : Method
  delete : Method

-- What `fetch` does: an answer that is `ok`, another answer, or an error of its own.
pub data Reply : Type 0 where
  accepted : Reply
  refused : ℕ → Reply
  unreachable : Text → Reply

-- Deleting an event that is gone is done.
abbrev pub is_gone : Method → ℕ → Bool
is_gone post status = false
is_gone put status = false
is_gone delete status = status == 404 || status == 410

abbrev pub write_code : ℕ → Text
write_code status =
    if status == 401
    then codes "google_reauthorization_required"
    else codes "google_calendar_write_failed"

abbrev pub answered : {C : Type 0} → Method → C × Reply → C × Outcome Unit
answered method (c, accepted) = (c, done tt)
answered method (c, refused status) =
    if is_gone method status
    then (c, done tt)
    else (c, thrown record { code = write_code status; status = some status })
answered method (c, unreachable message) = (c, thrown record { code = message; status = none })

-- A calendar and the mappings that are stored for its user.
pub record World (C D : Type 0) : Type 0 where
  pub calendar : C
  pub mappings : D

abbrev pub on_calendar : {C D : Type 0} → World C D → C × Outcome Unit → World C D × Outcome Unit
on_calendar w (c, outcome) = (record w { calendar = c }, outcome)

abbrev pub found : Option (Option ExistingSync) → Outcome (Option ExistingSync)
found none = thrown record { code = codes "calendar_mapping_read_failed"; status = none }
found (some existing) = done existing

abbrev pub saved : {C D : Type 0} → World C D → D × Bool → World C D × Outcome Unit
saved w (d, false) = (record w { mappings = d }, done tt)
saved w (d, true) = (
  record w { mappings = d },
  thrown record { code = codes "calendar_mapping_save_failed"; status = none },
)

-- A calendar `C` that a request to it changes: the method, the event of the path and the body.
module _ {C : Type 0} (request : Method → Option Text → Option GoogleEvent → C → C × Reply) where
  -- `googleEventRequest`
  unfoldable pub google_event_request :
      Method → Option GoogleEvent → Option Text → C → C × Outcome Unit
  google_event_request method event event_id c = answered method (request method event_id event c)

  unfoldable pub insert_event : GoogleEvent → C → C × Outcome Unit
  unfolding google_event_request
  insert_event event c =
      catch_status 409 (google_event_request post (some event) none c)
        (google_event_request put (some event) (some event.id))

  unfoldable pub update_event : Text → GoogleEvent → C → C × Outcome Unit
  unfolding google_event_request
  update_event event_id event c =
      catch_status 404 (google_event_request put (some event) (some event_id) c)
        (google_event_request post (some (record event { id = event_id })) none)

  -- The loop of `deleteSyncedGoogleEvents`, which stops at the first failure.
  unfoldable pub delete_each : List Text → C → C × Outcome Unit
  unfolding google_event_request
  delete_each [] c = (c, done tt)
  delete_each (id ∷ ids) c =
      bind (google_event_request delete none (some id) c) λ u. delete_each ids

  -- `deleteSyncedGoogleEvents`, from the access and the ids of the active mappings on.
  unfoldable pub delete_synced_google_events :
      Outcome Text → Outcome (List Text) → C → C × Outcome ℕ
  unfolding delete_each
  delete_synced_google_events (thrown failure) ids c = (c, thrown failure)
  delete_synced_google_events (done token) (thrown failure) c = (c, thrown failure)
  delete_synced_google_events (done token) (done ids) c =
      bind (delete_each ids c) λ u c. (c, done (length ids))

  -- The calendar and the mappings `D`, which are read and upserted; a read or a write that the
  -- database answers with an error gives none and `true`.
  module _ {D : Type 0} (read : Text → SourceKind → D → Option (Option ExistingSync))
      (upsert : Mapping → D → D × Bool) where
    unfoldable pub route_operations : SyncOperations (World C D)
    unfolding insert_event update_event
    route_operations = record {
      find = λ source_key kind w. (w, found (read source_key kind w.mappings));
      insert = λ event w. on_calendar w (insert_event event w.calendar);
      update = λ event_id event w. on_calendar w (update_event event_id event w.calendar);
      save = λ mapping w. saved w (upsert mapping w.mappings);
    }

-- What the route answers.
pub data SyncReply : Type 0 where
  results : List (Text × Action) → SyncReply
  error : ℕ → Text → SyncReply

module _ {W : Type 0} (sync : SelectedEvent → W → W × Outcome SyncResult) where
  -- The events of one request, in their order, until one of them fails.
  unfoldable pub sync_all : List SelectedEvent → W → W × Outcome (List (Text × Action))
  sync_all [] w = (w, done [])
  sync_all (event ∷ events) w = bind (sync event w) λ result w.
      bind (sync_all events w) λ rest w. (w, done ((event.source_key, result.action) ∷ rest))

  abbrev sync_reply : W × Outcome (List (Text × Action)) → W × SyncReply
  sync_reply (w, done synced) = (w, results synced)
  sync_reply (w, thrown failure) = (
    w,
    error (if text_eq failure.code (codes "google_calendar_not_connected") then 409 else 502)
        failure.code,
  )

  -- `POST` of the route for a signed-in visitor: the events that the body states, none where it is
  -- refused, and the access that `getCalendarAccess` returns.
  unfoldable pub post_sync : Option (List SelectedEvent) → Outcome Text → W → W × SyncReply
  unfolding sync_all
  post_sync none access w = (w, error 400 (codes "invalid_calendar_sync_request"))
  post_sync (some events) (thrown failure) w = sync_reply (w, thrown failure)
  post_sync (some events) (done token) w = sync_reply (sync_all events w)
