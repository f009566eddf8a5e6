-- ===== src/Calendar.antt =====
-- Selected events in Google's calendar: their synchronisation, the route that runs it, and their
-- removal (apps/web/lib/google-calendar, apps/web/app/api/integrations/google-calendar/sync).
pub mod Calls
pub mod Event
pub mod Google
pub mod Access
pub mod Triples
pub mod Stores
pub mod Laws
pub mod Reliable
mod Examples
use stseen.Calendar.Calls.{Failure, Outcome, done, thrown, bind, catch_status}
use stseen.Calendar.Event.{
  EventType, SelectedEvent, GoogleEvent, SourceKind, source_kind_for, map_selected_event,
}
use stseen.Prelude.{
  ℕ, Bool, true, false, ◌&&◌, ◌||◌, List, [], ◌∷◌, Option, none, some, if◌then◌else◌, ◌==◌, length,
  Text, text_eq, codes,
}

pub record ExistingSync : Type 0 where
  pub google_event_id : Text
  pub fingerprint : Text

-- What `save` stores.
pub record Mapping : Type 0 where
  pub source_key : Text
  pub source_kind : SourceKind
  pub sync : ExistingSync

-- `SyncOperations`, each of which changes a world and returns or throws.
pub record SyncOperations (W : Type 0) : Type 0 where
  pub find : Text → SourceKind → W → W × Outcome (Option ExistingSync)
  pub insert : GoogleEvent → W → W × Outcome Unit
  pub update : Text → GoogleEvent → W → W × Outcome Unit
  pub save : Mapping → W → W × Outcome Unit

pub data Action : Type 0 where
  unchanged : Action
  updated : Action
  created : Action

pub record SyncResult : Type 0 where
  pub action : Action
  pub sync : ExistingSync

module _ {W : Type 0} (ops : SyncOperations W) where
  abbrev pub save_as : Action → Text → SourceKind → ExistingSync → W → W × Outcome SyncResult
  save_as action source_key kind sync w =
      bind (ops.save record { source_key = source_key; source_kind = kind; sync = sync } w)
        λ u w. (w, done record { action = action; sync = sync })

  -- From the mapping that `find` returns on.
  unfoldable pub sync_existing :
      Text → SourceKind → GoogleEvent → Text → Option ExistingSync → W → W × Outcome SyncResult
  sync_existing source_key kind event fingerprint none w = bind (ops.insert event w) λ u.
      save_as created source_key kind
        record { google_event_id = event.id; fingerprint = fingerprint }
  sync_existing source_key kind event fingerprint (some existing) w =
      if text_eq existing.fingerprint fingerprint
      then (w, done record { action = unchanged; sync = existing })
      else bind
          (ops.update existing.google_event_id (record event { id = existing.google_event_id }) w)
          λ u. save_as updated source_key kind (record existing { fingerprint = fingerprint })

  -- `syncSelectedEvent`
  unfoldable pub sync_selected_event :
      (Text → Text)
      → (Text → Text)
      → (GoogleEvent → Text)
      → SelectedEvent
      → Text
      → W
      → W × Outcome SyncResult
  unfolding sync_existing
  sync_selected_event sha256 add_day json input user w =
      let kind = source_kind_for input.event_type in
      let event = map_selected_event sha256 add_day input user in
      bind (ops.find input.source_key kind w)
        (sync_existing input.source_key kind event (sha256 (json event)))
