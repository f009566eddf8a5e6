-- ===== src/Calendar/Examples.antt =====
-- A calendar and a table of mappings that answer always, and synchronisations with them.
use stseen.Calendar.{ExistingSync, Mapping, created, unchanged, sync_existing, sync_selected_event}
use stseen.Calendar.Access.{
  Connection, row, token, store_token, refresh_access_token, get_calendar_access,
}
use stseen.Calendar.Calls.{done}
use stseen.Calendar.Event.{
  networking, SelectedEvent, GoogleEvent, SourceKind, kind_text, source_kind_for,
  deterministic_google_event_id, map_selected_event,
}
use stseen.Calendar.Google.{
  Method, post, put, delete, Reply, accepted, refused, google_event_request, insert_event,
  update_event, delete_each, delete_synced_google_events, World, route_operations, results,
  sync_all, post_sync,
}
use stseen.Calendar.Stores.{target, is_target, GoogleLaws}
use stseen.Calendar.Laws.{
  sync_id, sync_selected_event-keeps, IsSynced, sync_selected_event-IsSynced,
}
use stseen.Calendar.Reliable.{AnswersAlways, sync_selected_event-Completes}
use stseen.Calendar.Triples.{Returns, Completes}
use stseen.Prelude.{
  ◌≡◌, refl, Bool, false, ◌&&◌, [], ◌∷◌, ◌++◌, Option, none, some, if◌then◌else◌, Text, text_eq,
  text_eq_refl, codes,
}

abbrev Events : Type 0
Events = Text → Option GoogleEvent

abbrev with_event : Text → Option GoogleEvent → Events → Events
with_event event_id event c id = if text_eq id event_id then event else c id

abbrev post_to : GoogleEvent → Option GoogleEvent → Events → Events × Reply
post_to event none c = (with_event event.id (some event) c, accepted)
post_to event (some old) c = (c, refused 409)

abbrev put_to : Text → GoogleEvent → Option GoogleEvent → Events → Events × Reply
put_to event_id event none c = (c, refused 404)
put_to event_id event (some old) c = (with_event event_id (some event) c, accepted)

abbrev request : Method → Option Text → Option GoogleEvent → Events → Events × Reply
request post none (some event) c = post_to event (c event.id) c
request put (some event_id) (some event) c = put_to event_id event (c event_id) c
request delete (some event_id) none c = (with_event event_id none c, accepted)
request method event_id event c = (c, refused 400)

abbrev event_at : Text → Events → Option GoogleEvent
event_at id c = c id

post_to-keeps :
    (event : GoogleEvent) (old : Option GoogleEvent) (c : Events) (id : Text)
    → text_eq id event.id ≡ false
    → (post_to event old c).0 id ≡ c id
post_to-keeps event none c id h = rw h refl
post_to-keeps event (some old) c id h = refl

put_to-keeps :
    (event_id : Text) (event : GoogleEvent) (old : Option GoogleEvent) (c : Events) (id : Text)
    → text_eq id event_id ≡ false
    → (put_to event_id event old c).0 id ≡ c id
put_to-keeps event_id event none c id h = refl
put_to-keeps event_id event (some old) c id h = rw h refl

post_to-posts :
    (event : GoogleEvent) (old : Option GoogleEvent) (c : Events)
    → (post_to event old c).1 ≡ accepted
    → (post_to event old c).0 event.id ≡ some event
post_to-posts event none c h = rw (text_eq_refl event.id) refl
post_to-posts event (some old) c h = cc

put_to-puts :
    (event_id : Text) (event : GoogleEvent) (old : Option GoogleEvent) (c : Events)
    → (put_to event_id event old c).1 ≡ accepted
    → (put_to event_id event old c).0 event_id ≡ some event
put_to-puts event_id event none c h = cc
put_to-puts event_id event (some old) c h = rw (text_eq_refl event_id) refl

request-keeps :
    (method : Method) (event_id : Option Text) (body : Option GoogleEvent) (c : Events) (id : Text)
    → is_target id (target event_id body) ≡ false
    → (request method event_id body c).0 id ≡ c id
request-keeps post none none c id h = refl
request-keeps post none (some event) c id h = post_to-keeps event (c event.id) c id h
request-keeps post (some event_id) body c id h = refl
request-keeps put none body c id h = refl
request-keeps put (some event_id) none c id h = refl
request-keeps put (some event_id) (some event) c id h =
    put_to-keeps event_id event (c event_id) c id h
request-keeps delete none body c id h = refl
request-keeps delete (some event_id) none c id h = rw h refl
request-keeps delete (some event_id) (some event) c id h = refl

laws : GoogleLaws request event_at
laws = record {
  keeps = request-keeps;
  posts = λ event c. post_to-posts event (c event.id) c;
  puts = λ event_id event c. put_to-puts event_id event (c event_id) c;
}

answers : AnswersAlways request event_at
answers = record {
  posts_new = λ event c h. rw h refl;
  refuses_taken = λ event old c h. rw h refl;
  puts_known = λ event_id event old c h. rw h refl;
  refuses_unknown = λ event_id event c h. rw h refl;
}

abbrev Mappings : Type 0
Mappings = Text → SourceKind → Option ExistingSync

abbrev read : Text → SourceKind → Mappings → Option (Option ExistingSync)
read source_key kind d = some (d source_key kind)

abbrev upsert : Mapping → Mappings → Mappings × Bool
upsert mapping d = (
  λ source_key kind.
      if text_eq source_key mapping.source_key
        && text_eq (kind_text kind) (kind_text mapping.source_kind)
      then some mapping.sync
      else d source_key kind,
  false,
)

upsert-reads :
    (mapping : Mapping) (d : Mappings)
    → (upsert mapping d).1 ≡ false
    → read mapping.source_key mapping.source_kind (upsert mapping d).0 ≡ some (some mapping.sync)
upsert-reads mapping d h =
    rw (text_eq_refl mapping.source_key, text_eq_refl (kind_text mapping.source_kind)) refl

abbrev same : Text → Text
same t = t

abbrev json : GoogleEvent → Text
json event = event.summary ++ event.start_date

abbrev step : SelectedEvent
step = record {
  source_key = codes "k1";
  event_type = networking;
  date = codes "2027-01-10";
  end_date = none;
  company = codes "Acme";
  role = codes "SWE";
  label = codes "Start networking";
  detail = codes "d";
  confidence = none;
  role_url = codes "https://1stseen.example/roles/r1";
}

abbrev empty : World Events Mappings
empty = record { calendar = λ id. none; mappings = λ source_key kind. none }

-- The event was inserted and its mapping was not stored.
abbrev half_way : World Events Mappings
half_way = record empty {
  calendar =
      with_event (map_selected_event same same step (codes "u")).id
        (some (map_selected_event same same step (codes "u"))) (λ id. none);
}

post_sync_test :
    (post_sync
      (λ event.
        sync_selected_event (route_operations request read upsert) same same json event (codes "u"))
      (some (step ∷ step ∷ []))
      (done (codes "t"))
      half_way).1
    ≡ results ((codes "k1", created) ∷ (codes "k1", unchanged) ∷ [])
unfolding post_sync sync_all sync_selected_event sync_existing route_operations insert_event
    update_event google_event_request map_selected_event deterministic_google_event_id
    source_kind_for
post_sync_test = refl

delete_test :
    (delete_synced_google_events request
      (done (codes "t"))
      (done (codes "a" ∷ codes "b" ∷ []))
      empty.calendar).1
    ≡ done 2
unfolding delete_synced_google_events delete_each google_event_request
delete_test = refl

abbrev connection : Connection
connection = record {
  calendar_id = codes "c";
  access_token_ciphertext = codes "old";
  refresh_token_ciphertext = codes "r";
  token_expires_at = 60000;
}

access_test :
    get_calendar_access
      (λ t. done t)
      (λ t. done t)
      (λ t. token (codes "new") (some 5))
      0
      (row connection)
    ≡ (
      store_token (codes "new") 5000 ∷ [],
      done record { access_token = codes "new"; calendar_id = codes "c" },
    )
unfolding get_calendar_access refresh_access_token
access_test = refl

sync_selected_event-keeps_example :
    event_at
      (codes "other")
      (sync_selected_event
        (route_operations request read upsert)
        same
        same
        json
        step
        (codes "u")
        half_way).0.calendar
    ≡ none
unfolding map_selected_event deterministic_google_event_id source_kind_for
sync_selected_event-keeps_example =
    sync_selected_event-keeps request event_at laws read upsert same same json step (codes "u")
      half_way (codes "other") refl

sync_selected_event-IsSynced_example :
    Returns (IsSynced request event_at laws read upsert same same json step (codes "u")) (
      sync_selected_event
        (route_operations request read upsert)
        same
        same
        json
        step
        (codes "u")
        half_way)
sync_selected_event-IsSynced_example =
    sync_selected_event-IsSynced request event_at laws read upsert same same json step (codes "u")
      upsert-reads half_way

sync_selected_event-Completes_example :
    Completes
      (λ result w.
        result.sync.google_event_id
        ≡ sync_id (map_selected_event same same step (codes "u")).id (some none))
      (sync_selected_event
        (route_operations request read upsert)
        same
        same
        json
        step
        (codes "u")
        half_way)
sync_selected_event-Completes_example =
    sync_selected_event-Completes request event_at answers read upsert (λ mapping d. refl) same same
      json step (codes "u") half_way none refl
