-- ===== src/Calendar/Laws.antt =====
-- What a synchronisation leaves in the calendar and in the mappings.
use stseen.Calendar.Stores.{
  GoogleLaws, insert_event-IsKept, update_event-IsKept, insert_event-Stores, update_event-Stores,
}
use stseen.Calendar.{
  ExistingSync, Mapping, SyncOperations, Action, unchanged, updated, created, SyncResult, save_as,
  sync_existing, sync_selected_event,
}
use stseen.Calendar.Calls.{Outcome, done, thrown}
use stseen.Calendar.Event.{
  SelectedEvent, GoogleEvent, SourceKind, source_kind_for, map_selected_event,
}
use stseen.Calendar.Google.{
  Method, Reply, insert_event, update_event, World, on_calendar, found, saved, route_operations,
}
use stseen.Calendar.Triples.{Returns, bind-world, bind-Returns}
use stseen.Prelude.{
  ◌≡◌, refl, ap, ◌∙◌, Bool, true, false, Option, none, some, Text, text_eq, text_eq_refl,
  text_eq→eq, subst, Bool-cases, Option-cases, inl, inr,
}

saved-calendar : {C D : Type 0} (w : World C D) (x : D × Bool) → (saved w x).0.calendar ≡ w.calendar
saved-calendar w (d, false) = refl
saved-calendar w (d, true) = refl

saved-Returns :
    {C D : Type 0} (P : World C D → Type 0) (w : World C D) (x : D × Bool)
    → (x.1 ≡ false → P (record w { mappings = x.0 }))
    → Returns (λ u v. P v) (saved w x)
saved-Returns P w (d, false) h = h refl
saved-Returns P w (d, true) h = tt

on_calendar-Returns :
    {C D : Type 0} (P : C → Type 0) (w : World C D) (x : C × Outcome Unit)
    → Returns (λ u c. P c) x
    → Returns (λ u v. P v.calendar) (on_calendar w x)
on_calendar-Returns P w (c, done u) h = h
on_calendar-Returns P w (c, thrown failure) h = tt

abbrev has_written : Action → Bool
has_written unchanged = false
has_written updated = true
has_written created = true

-- The id that a synchronisation writes to: that of the mapping, or the one made of the selection.
abbrev pub sync_id : Text → Option (Option ExistingSync) → Text
sync_id fresh none = fresh
sync_id fresh (some none) = fresh
sync_id fresh (some (some existing)) = existing.google_event_id

module _ {C D : Type 0} (request : Method → Option Text → Option GoogleEvent → C → C × Reply)
    (event_at : Text → C → Option GoogleEvent) (laws : GoogleLaws request event_at)
    (read : Text → SourceKind → D → Option (Option ExistingSync))
    (upsert : Mapping → D → D × Bool) where
  abbrev ops : SyncOperations (World C D)
  ops = route_operations request read upsert

  -- A mapping that is stored without an error is read back.
  abbrev pub UpsertReads : Type 0
  UpsertReads =
      (mapping : Mapping) (d : D)
      → (upsert mapping d).1 ≡ false
      → read mapping.source_key mapping.source_kind (upsert mapping d).0 ≡ some (some mapping.sync)

  save_as-calendar :
      (action : Action) (source_key : Text) (kind : SourceKind) (sync : ExistingSync)
      (w : World C D)
      → (save_as ops action source_key kind sync w).0.calendar ≡ w.calendar
  unfolding route_operations
  save_as-calendar action source_key kind sync w =
      bind-world (λ v. v.calendar ≡ w.calendar)
        (saved w
          (upsert record { source_key = source_key; source_kind = kind; sync = sync } w.mappings))
        (λ u v. (v, done record { action = action; sync = sync }))
        (saved-calendar w
          (upsert record { source_key = source_key; source_kind = kind; sync = sync } w.mappings))
        λ u v k. k

  sync_existing-IsKept :
      (id source_key : Text) (kind : SourceKind) (event : GoogleEvent) (fingerprint : Text)
      (existing : Option ExistingSync) (w : World C D)
      → text_eq id (sync_id event.id (some existing)) ≡ false
      → event_at id (sync_existing ops source_key kind event fingerprint existing w).0.calendar
        ≡ event_at id w.calendar
  unfolding sync_existing route_operations
  sync_existing-IsKept id source_key kind event fingerprint none w h =
      bind-world (λ v. event_at id v.calendar ≡ event_at id w.calendar) (ops.insert event w)
        (λ u.
          save_as ops created source_key kind
            record { google_event_id = event.id; fingerprint = fingerprint })
        (insert_event-IsKept request event_at laws id (event_at id w.calendar) event w.calendar h
          refl)
        λ u v k. ap (event_at id) (save_as-calendar created source_key kind _ v) ∙ k
  sync_existing-IsKept id source_key kind event fingerprint (some existing) w h =
      elim (Bool-cases (text_eq existing.fingerprint fingerprint)) [
        | inl e ↦ rw e refl
        | inr e ↦
            (rw e (
              bind-world (λ v. event_at id v.calendar ≡ event_at id w.calendar)
                (ops.update existing.google_event_id
                  (record event { id = existing.google_event_id }) w)
                (λ u.
                  save_as ops updated source_key kind
                    (record existing { fingerprint = fingerprint }))
                (update_event-IsKept request event_at laws id (event_at id w.calendar)
                  existing.google_event_id (record event { id = existing.google_event_id })
                  w.calendar h refl)
                λ u v k. ap (event_at id) (save_as-calendar updated source_key kind _ v) ∙ k))
      ]

  module _ (sha256 add_day : Text → Text) (json : GoogleEvent → Text) (input : SelectedEvent)
      (user : Text) where
    -- A synchronisation, whether it returns or fails on the way, changes no event of the calendar
    -- but the one that its mapping names, or the one made of the selection where there is none.
    pub sync_selected_event-keeps :
        (w : World C D) (id : Text)
        → text_eq id (
            sync_id
              (map_selected_event sha256 add_day input user).id
              (read input.source_key (source_kind_for input.event_type) w.mappings))
          ≡ false
        → event_at id (sync_selected_event ops sha256 add_day json input user w).0.calendar
          ≡ event_at id w.calendar
    unfolding sync_selected_event route_operations
    sync_selected_event-keeps w id h =
        let kind = source_kind_for input.event_type in
        let event = map_selected_event sha256 add_day input user in
        elim (Option-cases (read input.source_key kind w.mappings)) [
          | inl e ↦ rw e refl
          | inr e ↦
              (rw e.1 (
                sync_existing-IsKept id input.source_key kind event (sha256 (json event)) e.0 w
                  (subst (λ o. text_eq id (sync_id event.id o) ≡ false) e.1 h)))
        ]

    -- A world in which a further synchronisation has nothing to do.
    abbrev pub IsSettled : SyncResult → World C D → Type 0
    IsSettled result w =
        sync_selected_event ops sha256 add_day json input user w
        ≡ (w, done record { action = unchanged; sync = result.sync })

    abbrev fresh : GoogleEvent
    fresh = map_selected_event sha256 add_day input user

    abbrev pub HasFresh : Text → C → Type 0
    HasFresh id c = event_at id c ≡ some (record fresh { id = id })

    settled :
        (action : Action) (sync : ExistingSync) (w : World C D)
        → sync.fingerprint ≡ sha256 (json fresh)
        → read input.source_key (source_kind_for input.event_type) w.mappings ≡ some (some sync)
        → IsSettled record { action = action; sync = sync } w
    unfolding sync_selected_event sync_existing route_operations
    settled action sync w h k = rw (k, h, text_eq_refl (sha256 (json fresh))) refl

    -- The calendar has the event under the id that was returned, unless nothing was written.
    abbrev pub IsWritten : SyncResult → World C D → Type 0
    IsWritten result w = elim result.action [
      | unchanged ↦ Unit
      | created ↦ HasFresh result.sync.google_event_id w.calendar
      | updated ↦ HasFresh result.sync.google_event_id w.calendar
    ]

    has_written-IsWritten :
        (action : Action) (sync : ExistingSync) (w : World C D)
        → has_written action ≡ true
        → HasFresh sync.google_event_id w.calendar
        → IsWritten record { action = action; sync = sync } w
    has_written-IsWritten unchanged sync w h k = tt
    has_written-IsWritten updated sync w h k = k
    has_written-IsWritten created sync w h k = k

    abbrev pub IsSynced : SyncResult → World C D → Type 0
    IsSynced result w = IsSettled result w × IsWritten result w

    save_as-IsSynced :
        UpsertReads
        → (action : Action) (sync : ExistingSync) (w : World C D) → has_written action ≡ true
        → sync.fingerprint ≡ sha256 (json fresh)
        → HasFresh sync.google_event_id w.calendar
        → Returns IsSynced
            (save_as ops action input.source_key (source_kind_for input.event_type) sync w)
    unfolding route_operations
    save_as-IsSynced reads action sync w written h k =
        let mapping : Mapping = record {
          source_key = input.source_key;
          source_kind = source_kind_for input.event_type;
          sync = sync;
        } in
        bind-Returns
          (λ u v.
            (read input.source_key (source_kind_for input.event_type) v.mappings ≡ some (some sync))
            × HasFresh sync.google_event_id v.calendar)
          IsSynced (saved w (upsert mapping w.mappings))
          (λ u v. (v, done record { action = action; sync = sync }))
          (saved-Returns
            (λ v.
              (read input.source_key (source_kind_for input.event_type) v.mappings
                ≡ some (some sync))
              × HasFresh sync.google_event_id v.calendar)
            w (upsert mapping w.mappings) (λ e. (reads mapping w.mappings e, k)))
          λ u v p. (settled action sync v h p.0, has_written-IsWritten action sync v written p.1)

    sync_existing-IsSynced :
        UpsertReads
        → (existing : Option ExistingSync) (w : World C D)
        → read input.source_key (source_kind_for input.event_type) w.mappings ≡ some existing
        → Returns IsSynced (
            sync_existing ops input.source_key
              (source_kind_for input.event_type)
              fresh
              (sha256 (json fresh))
              existing
              w)
    unfolding sync_existing route_operations
    sync_existing-IsSynced reads none w found =
        bind-Returns (λ u v. HasFresh fresh.id v.calendar) IsSynced (ops.insert fresh w) _
          (on_calendar-Returns (HasFresh fresh.id) w (insert_event request fresh w.calendar)
            (insert_event-Stores request event_at laws fresh w.calendar))
          λ u v k. save_as-IsSynced reads created _ v refl refl k
    sync_existing-IsSynced reads (some existing) w found =
        elim (Bool-cases (text_eq existing.fingerprint (sha256 (json fresh)))) [
          | inl e ↦ rw e (settled unchanged existing w (text_eq→eq _ _ e) found, tt)
          | inr e ↦
              (rw e (
                bind-Returns (λ u v. HasFresh existing.google_event_id v.calendar) IsSynced
                  (ops.update existing.google_event_id
                    (record fresh { id = existing.google_event_id }) w)
                  _
                  (on_calendar-Returns (HasFresh existing.google_event_id) w
                    (update_event request existing.google_event_id
                      (record fresh { id = existing.google_event_id }) w.calendar)
                    (update_event-Stores request event_at laws
                      (record fresh { id = existing.google_event_id }) w.calendar))
                  λ u v k.
                    save_as-IsSynced reads updated
                      (record existing { fingerprint = sha256 (json fresh) }) v refl refl k))
        ]

    -- Where a synchronisation returns, the calendar has the event under the id that it returns
    -- unless nothing was to be written, and the next synchronisation of the same selection writes
    -- nothing and returns the same id.
    pub sync_selected_event-IsSynced :
        UpsertReads
        → (w : World C D)
        → Returns IsSynced (sync_selected_event ops sha256 add_day json input user w)
    unfolding sync_selected_event route_operations
    sync_selected_event-IsSynced reads w =
        elim (Option-cases (read input.source_key (source_kind_for input.event_type) w.mappings)) [
          | inl e ↦ rw e tt
          | inr e ↦ rw e.1 (sync_existing-IsSynced reads e.0 w e.1)
        ]
