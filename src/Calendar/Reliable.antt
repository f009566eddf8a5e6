-- ===== src/Calendar/Reliable.antt =====
-- A synchronisation with services that answer always returns, whatever an earlier one that failed
-- half way has left behind.
use stseen.Calendar.{
  ExistingSync, Mapping, SyncOperations, Action, updated, created, SyncResult, save_as,
  sync_existing, sync_selected_event,
}
use stseen.Calendar.Calls.{Outcome, done, thrown}
use stseen.Calendar.Event.{
  SelectedEvent, GoogleEvent, SourceKind, source_kind_for, map_selected_event,
}
use stseen.Calendar.Google.{
  Method, post, put, Reply, accepted, refused, unreachable, answered, google_event_request,
  insert_event, update_event, World, on_calendar, saved, route_operations,
}
use stseen.Calendar.Laws.{sync_id}
use stseen.Calendar.Triples.{Completes, bind-Completes}
use stseen.Prelude.{
  ◌≡◌, refl, Bool, true, false, Option, none, some, Text, text_eq, Bool-cases, Option-cases, inl,
  inr,
}

-- A calendar that is reached: it takes an event under an id that is free, answers 409 to one under
-- an id that is taken, changes an event that it has, answers 404 for one that it has not, and is as
-- it was where it refuses.
pub record AnswersAlways {C : Type 0}
    (request : Method → Option Text → Option GoogleEvent → C → C × Reply)
    (event_at : Text → C → Option GoogleEvent) : Type 0 where
  pub posts_new :
      (event : GoogleEvent) (c : C)
      → event_at event.id c ≡ none
      → (request post none (some event) c).1 ≡ accepted
  pub refuses_taken :
      (event old : GoogleEvent) (c : C)
      → event_at event.id c ≡ some old
      → request post none (some event) c ≡ (c, refused 409)
  pub puts_known :
      (event_id : Text) (event old : GoogleEvent) (c : C)
      → event_at event_id c ≡ some old
      → (request put (some event_id) (some event) c).1 ≡ accepted
  pub refuses_unknown :
      (event_id : Text) (event : GoogleEvent) (c : C)
      → event_at event_id c ≡ none
      → request put (some event_id) (some event) c ≡ (c, refused 404)

answered-accepted :
    {C : Type 0} (method : Method) (x : C × Reply)
    → x.1 ≡ accepted
    → answered method x ≡ (x.0, done tt)
answered-accepted method (c, accepted) h = refl
answered-accepted method (c, refused status) h = cc
answered-accepted method (c, unreachable message) h = cc

-- A call that returns, without more.
abbrev Succeeds : {W A : Type 0} → W × Outcome A → Type 0
Succeeds = Completes (λ a w. Unit)

module _ {C : Type 0} (request : Method → Option Text → Option GoogleEvent → C → C × Reply)
    (event_at : Text → C → Option GoogleEvent) (answers : AnswersAlways request event_at) where
  insert_event-Succeeds : (event : GoogleEvent) (c : C) → Succeeds (insert_event request event c)
  unfolding insert_event google_event_request
  insert_event-Succeeds event c = elim (Option-cases (event_at event.id c)) [
    | inl e ↦
        rw (answered-accepted post (request post none (some event) c) (answers.posts_new event c e))
          tt
    | inr e ↦
        rw
          (
            answers.refuses_taken event e.0 c e.1,
            answered-accepted put (request put (some event.id) (some event) c)
                (answers.puts_known event.id event e.0 c e.1),
          )
          tt
  ]

  update_event-Succeeds :
      (event_id : Text) (event : GoogleEvent) (c : C)
      → Succeeds (update_event request event_id event c)
  unfolding update_event google_event_request
  update_event-Succeeds event_id event c = elim (Option-cases (event_at event_id c)) [
    | inl e ↦
        rw
          (
            answers.refuses_unknown event_id event c e,
            answered-accepted post (request post none (some (record event { id = event_id })) c)
                (answers.posts_new (record event { id = event_id }) c e),
          )
          tt
    | inr e ↦
        rw
          (answered-accepted put (request put (some event_id) (some event) c)
            (answers.puts_known event_id event e.0 c e.1))
          tt
  ]

on_calendar-Succeeds :
    {C D : Type 0} (w : World C D) (x : C × Outcome Unit) → Succeeds x → Succeeds (on_calendar w x)
on_calendar-Succeeds w (c, done u) h = tt
on_calendar-Succeeds w (c, thrown failure) h = absurd h

saved-Succeeds : {C D : Type 0} (w : World C D) (x : D × Bool) → x.1 ≡ false → Succeeds (saved w x)
saved-Succeeds w (d, false) h = tt
saved-Succeeds w (d, true) h = cc

module _ {C D : Type 0} (request : Method → Option Text → Option GoogleEvent → C → C × Reply)
    (event_at : Text → C → Option GoogleEvent) (answers : AnswersAlways request event_at)
    (read : Text → SourceKind → D → Option (Option ExistingSync)) (upsert : Mapping → D → D × Bool)
    (stores : (mapping : Mapping) (d : D) → (upsert mapping d).1 ≡ false) where
  abbrev ops : SyncOperations (World C D)
  ops = route_operations request read upsert

  abbrev HasId : Text → SyncResult → World C D → Type 0
  HasId id result w = result.sync.google_event_id ≡ id

  save_as-HasId :
      (action : Action) (source_key : Text) (kind : SourceKind) (sync : ExistingSync)
      (w : World C D)
      → Completes (HasId sync.google_event_id) (save_as ops action source_key kind sync w)
  unfolding route_operations
  save_as-HasId action source_key kind sync w =
      let mapping : Mapping = record { source_key = source_key; source_kind = kind; sync = sync } in
      bind-Completes (λ u v. Unit) (HasId sync.google_event_id)
        (saved w (upsert mapping w.mappings))
        (λ u v. (v, done record { action = action; sync = sync }))
        (saved-Succeeds w (upsert mapping w.mappings) (stores mapping w.mappings)) λ u v k. refl

  sync_existing-HasId :
      (source_key : Text) (kind : SourceKind) (event : GoogleEvent) (fingerprint : Text)
      (existing : Option ExistingSync) (w : World C D)
      → Completes
          (HasId (sync_id event.id (some existing)))
          (sync_existing ops source_key kind event fingerprint existing w)
  unfolding sync_existing route_operations
  sync_existing-HasId source_key kind event fingerprint none w =
      bind-Completes (λ u v. Unit) (HasId event.id) (ops.insert event w) _
        (on_calendar-Succeeds w (insert_event request event w.calendar)
          (insert_event-Succeeds request event_at answers event w.calendar))
        λ u v k. save_as-HasId created source_key kind _ v
  sync_existing-HasId source_key kind event fingerprint (some existing) w =
      elim (Bool-cases (text_eq existing.fingerprint fingerprint)) [
        | inl e ↦ rw e refl
        | inr e ↦
            (rw e (
              bind-Completes (λ u v. Unit) (HasId existing.google_event_id)
                (ops.update existing.google_event_id
                  (record event { id = existing.google_event_id }) w)
                _
                (on_calendar-Succeeds w
                  (update_event request existing.google_event_id
                    (record event { id = existing.google_event_id }) w.calendar)
                  (update_event-Succeeds request event_at answers existing.google_event_id
                    (record event { id = existing.google_event_id }) w.calendar))
                λ u v k.
                  save_as-HasId updated source_key kind
                    (record existing { fingerprint = fingerprint }) v))
      ]

  -- With a calendar that answers and a database that reads and stores, a synchronisation returns in
  -- every state of the two, and with the id of the mapping or else the one made of the selection:
  -- an earlier one that failed between the calendar and the database is taken up again.
  pub sync_selected_event-Completes :
      (sha256 add_day : Text → Text) (json : GoogleEvent → Text) (input : SelectedEvent)
      (user : Text) (w : World C D) (existing : Option ExistingSync)
      → read input.source_key (source_kind_for input.event_type) w.mappings ≡ some existing
      → Completes
          (λ result v.
            result.sync.google_event_id
            ≡ sync_id (map_selected_event sha256 add_day input user).id (some existing))
          (sync_selected_event ops sha256 add_day json input user w)
  unfolding sync_selected_event route_operations
  sync_selected_event-Completes sha256 add_day json input user w existing h = rw h (
      sync_existing-HasId input.source_key (source_kind_for input.event_type)
        (map_selected_event sha256 add_day input user)
        (sha256 (json (map_selected_event sha256 add_day input user))) existing w)
