-- ===== src/Calendar/Stores.antt =====
-- What a request, an insertion and an update leave in the calendar.
use stseen.Calendar.Calls.{Outcome}
use stseen.Calendar.Event.{GoogleEvent}
use stseen.Calendar.Google.{
  Method, post, put, delete, Reply, accepted, refused, unreachable, is_gone, answered,
  google_event_request, insert_event, update_event,
}
use stseen.Calendar.Triples.{Returns, catch_status-world, catch_status-Returns}
use stseen.Prelude.{
  ◌≡◌, refl, ◌∙◌, Bool, false, Option, none, some, Text, text_eq, Bool-cases, inl, inr,
}

-- The event that a request is about: that of the path, or that of the body.
abbrev pub target : Option Text → Option GoogleEvent → Option Text
target (some event_id) body = some event_id
target none none = none
target none (some event) = some event.id

abbrev pub is_target : Text → Option Text → Bool
is_target id none = false
is_target id (some other) = text_eq id other

-- What the calendar's service documents: a request changes no event but the one that it is about,
-- and an event that it has accepted is in the calendar.
pub record GoogleLaws {C : Type 0}
    (request : Method → Option Text → Option GoogleEvent → C → C × Reply)
    (event_at : Text → C → Option GoogleEvent) : Type 0 where
  pub keeps :
      (method : Method) (event_id : Option Text) (body : Option GoogleEvent) (c : C) (id : Text)
      → is_target id (target event_id body) ≡ false
      → event_at id (request method event_id body c).0 ≡ event_at id c
  pub posts :
      (event : GoogleEvent) (c : C)
      → (request post none (some event) c).1 ≡ accepted
      → event_at event.id (request post none (some event) c).0 ≡ some event
  pub puts :
      (event_id : Text) (event : GoogleEvent) (c : C)
      → (request put (some event_id) (some event) c).1 ≡ accepted
      → event_at event_id (request put (some event_id) (some event) c).0 ≡ some event

answered-world : {C : Type 0} (method : Method) (x : C × Reply) → (answered method x).0 ≡ x.0
answered-world method (c, accepted) = refl
answered-world method (c, refused status) = elim (Bool-cases (is_gone method status)) [
  | inl e ↦ rw e refl
  | inr e ↦ rw e refl
]
answered-world method (c, unreachable message) = refl

-- An event that is as it was.
abbrev IsKept :
    {C : Type 0} → (Text → C → Option GoogleEvent) → Text → Option GoogleEvent → C → Type 0
IsKept event_at id before c = event_at id c ≡ before

pub answered-Returns :
    {C : Type 0} (P : C → Type 0) (method : Method) (x : C × Reply)
    → is_gone method 404 ≡ false
    → (x.1 ≡ accepted → P x.0)
    → Returns (λ u c. P c) (answered method x)
answered-Returns P method (c, accepted) h k = k refl
answered-Returns P method (c, unreachable message) h k = tt
answered-Returns P post (c, refused status) h k = tt
answered-Returns P put (c, refused status) h k = tt
answered-Returns P delete (c, refused status) h k = cc

module _ {C : Type 0} (request : Method → Option Text → Option GoogleEvent → C → C × Reply)
    (event_at : Text → C → Option GoogleEvent) (laws : GoogleLaws request event_at) where
  module _ (id : Text) (before : Option GoogleEvent) where
    request-IsKept :
        (method : Method) (body : Option GoogleEvent) (event_id : Option Text) (c : C)
        → is_target id (target event_id body) ≡ false
        → IsKept event_at id before c
        → IsKept event_at id before (google_event_request request method body event_id c).0
    unfolding google_event_request
    request-IsKept method body event_id c h k =
        rw (answered-world method (request method event_id body c))
          (laws.keeps method event_id body c id h ∙ k)

    pub insert_event-IsKept :
        (event : GoogleEvent) (c : C)
        → text_eq id event.id ≡ false
        → IsKept event_at id before c
        → IsKept event_at id before (insert_event request event c).0
    unfolding insert_event
    insert_event-IsKept event c h k =
        catch_status-world (IsKept event_at id before) 409
          (google_event_request request post (some event) none c)
          (google_event_request request put (some event) (some event.id))
          (request-IsKept post (some event) none c h k)
          λ w. request-IsKept put (some event) (some event.id) w h

    pub update_event-IsKept :
        (event_id : Text) (event : GoogleEvent) (c : C)
        → text_eq id event_id ≡ false
        → IsKept event_at id before c
        → IsKept event_at id before (update_event request event_id event c).0
    unfolding update_event
    update_event-IsKept event_id event c h k =
        catch_status-world (IsKept event_at id before) 404
          (google_event_request request put (some event) (some event_id) c)
          (google_event_request request post (some (record event { id = event_id })) none)
          (request-IsKept put (some event) (some event_id) c h k)
          λ w. request-IsKept post (some (record event { id = event_id })) none w h

  -- A call after which the calendar has the event.
  abbrev Stores : Text → GoogleEvent → C × Outcome Unit → Type 0
  Stores event_id event = Returns λ u c. event_at event_id c ≡ some event

  post-Stores :
      (event : GoogleEvent) (c : C)
      → Stores event.id event (google_event_request request post (some event) none c)
  unfolding google_event_request
  post-Stores event c =
      answered-Returns (λ d. event_at event.id d ≡ some event) post
        (request post none (some event) c) refl (laws.posts event c)

  put-Stores :
      (event_id : Text) (event : GoogleEvent) (c : C)
      → Stores event_id event (google_event_request request put (some event) (some event_id) c)
  unfolding google_event_request
  put-Stores event_id event c =
      answered-Returns (λ d. event_at event_id d ≡ some event) put
        (request put (some event_id) (some event) c) refl (laws.puts event_id event c)

  pub insert_event-Stores :
      (event : GoogleEvent) (c : C) → Stores event.id event (insert_event request event c)
  unfolding insert_event
  insert_event-Stores event c =
      catch_status-Returns (λ u d. event_at event.id d ≡ some event) 409
        (google_event_request request post (some event) none c)
        (google_event_request request put (some event) (some event.id)) (post-Stores event c)
        λ d. put-Stores event.id event d

  pub update_event-Stores :
      (event : GoogleEvent) (c : C) → Stores event.id event (update_event request event.id event c)
  unfolding update_event
  update_event-Stores event c =
      catch_status-Returns (λ u d. event_at event.id d ≡ some event) 404
        (google_event_request request put (some event) (some event.id) c)
        (google_event_request request post (some event) none) (put-Stores event.id event c)
        λ d. post-Stores event d
