-- ===== src/Onboarding/Route.antt =====
-- The handler that finishes or skips the first run, apps/web/app/api/onboarding/route.ts.
pub mod Follows
use stseen.Dashboard.Query.{dedupe}
use stseen.Onboarding.{
  PlanOutcome, ready, not_configured, unreachable, refused, plan_outcome, disciplines_for_fields,
}
use stseen.Onboarding.Tables.{FieldValue}
use stseen.Prelude.{
  ℕ, ◌≡◌, refl, Bool, true, false, not, ◌&&◌, ◌||◌, List, [], ◌∷◌, ◌++◌, Option, none, some, map,
  filter, filter-All, any, All, All-append, length, if◌then◌else◌, Text, text_eq, text_lt, codes,
  arith,
}

-- A row of `dashboard_role_facts`.
pub record FactRow : Type 0 where
  pub role_id : Text
  pub forecastable : Bool
  pub window_end : Option Text

-- What the services answer to a read: none is an error.
pub record RunReads : Type 0 where
  pub known_companies : List Text → Option (List Text)
  pub followed_companies : List Text → Option (List Text)
  pub role_facts : List Text → Option (List FactRow)
  pub followed_roles : List Text → Option (List Text)

-- A write that was tried, or the request for a plan.
pub data RunEffect : Type 0 where
  save_skipped : RunEffect
  save_completed : (disciplines : List Text) → RunEffect
  follow_companies : List Text → RunEffect
  follow_roles : List Text → RunEffect
  ask_plan : Text → RunEffect

pub data RunReply : Type 0 where
  error : ℕ → Text → RunReply
  skipped : RunReply
  completed : (watching : ℕ) → (plan : Option PlanOutcome) → (redirect : Text) → RunReply

-- The body, checked by its schema.
pub data RunBody : Type 0 where
  skip : RunBody
  complete : (fields : List FieldValue) → (companies : List Text) → (role_ids : List Text) → RunBody

abbrev plan_text : PlanOutcome → Text
plan_text ready = codes "ready"
plan_text not_configured = codes "not_configured"
plan_text unreachable = codes "unreachable"
plan_text refused = codes "refused"

abbrev failed_with : List RunEffect → Text → List RunEffect × RunReply
failed_with effects code = (effects, error 500 code)

abbrev pub has_row : List FactRow → Text → Bool
has_row rows id = any (λ row. text_eq row.role_id id) rows

-- The row that a map of the rows by id has: the last one.
abbrev fact_by_id : List FactRow → Text → Option FactRow
fact_by_id [] id = none
fact_by_id (row ∷ rows) id = elim (fact_by_id rows id) [
  | none ↦ if text_eq row.role_id id then some row else none
  | some later ↦ some later
]

abbrev ends_from : Text → Option Text → Bool
ends_from today none = false
ends_from today (some window_end) = not (text_lt window_end today)

abbrev can_land : Text → Option FactRow → Bool
can_land today none = false
can_land today (some row) = row.forecastable && ends_from today row.window_end

abbrev pub find_landing : Text → List FactRow → List Text → Option Text
find_landing today rows [] = none
find_landing today rows (id ∷ ids) =
    if can_land today (fact_by_id rows id) then some id else find_landing today rows ids

-- `write` tells whether a write succeeds, and `plan` is the status and the error code of the
-- readiness plan's reply.
module _ (reads : RunReads) (write : RunEffect → Bool) (plan : Text → ℕ × Option Text)
    (lower : Text → Text) (today : Text) where
  abbrev pub landed : List RunEffect → List Text → Option Text → List RunEffect × RunReply
  landed effects chosen none =
      (effects, completed (length chosen) none (codes "/roles?watched=1&welcome=none"))
  landed effects chosen (some id) =
      let outcome = plan_outcome (plan id).0 (plan id).1 in
      (
        effects ++ ask_plan id ∷ [],
        completed (length chosen) (some outcome)
            (codes "/roles/" ++ (id ++ (codes "?welcome=" ++ plan_text outcome))),
      )

  -- Writing the follows that are new, unless there are none, and going on.
  abbrev pub write_fresh :
      (List Text → RunEffect)
      → List Text
      → List RunEffect
      → (List RunEffect → List RunEffect × RunReply)
      → List RunEffect × RunReply
  write_fresh follow [] effects next = next effects
  write_fresh follow (id ∷ ids) effects next =
      if write (follow (id ∷ ids))
      then next (effects ++ follow (id ∷ ids) ∷ [])
      else failed_with (effects ++ follow (id ∷ ids) ∷ []) (codes "follow_failed")

  abbrev pub fresh_of : List Text → List Text → List Text
  fresh_of already = filter λ id. not (any (text_eq id) already)

  abbrev pub with_followed :
      List FactRow → List Text → Option (List Text) → List RunEffect → List RunEffect × RunReply
  with_followed rows chosen none effects = failed_with effects (codes "follow_failed")
  with_followed rows chosen (some already) effects =
      write_fresh follow_roles (fresh_of already chosen) effects
        λ done. landed done chosen (find_landing today rows chosen)

  abbrev pub with_chosen : List FactRow → List Text → List RunEffect → List RunEffect × RunReply
  with_chosen rows [] effects = (effects, error 400 (codes "no_in_scope_roles"))
  with_chosen rows (id ∷ ids) effects =
      with_followed rows (id ∷ ids) (reads.followed_roles (id ∷ ids)) effects

  abbrev pub with_facts :
      List Text → Option (List FactRow) → List RunEffect → List RunEffect × RunReply
  with_facts requested none effects = failed_with effects (codes "role_lookup_failed")
  with_facts requested (some rows) effects =
      with_chosen rows (filter (has_row rows) requested) effects

  abbrev only_companies : List Text → Text
  only_companies [] = codes "/roles"
  only_companies (id ∷ ids) = codes "/roles?watched=1"

  abbrev pub follow_requested : List Text → List Text → List RunEffect → List RunEffect × RunReply
  follow_requested companies [] effects = (effects, completed 0 none (only_companies companies))
  follow_requested companies (id ∷ ids) effects =
      with_facts (id ∷ ids) (reads.role_facts (id ∷ ids)) effects

  abbrev pub with_already :
      List Text
      → List Text
      → Option (List Text)
      → List RunEffect
      → (List RunEffect → List RunEffect × RunReply)
      → List RunEffect × RunReply
  with_already companies existing none effects next = failed_with effects (codes "follow_failed")
  with_already companies existing (some already) effects next =
      write_fresh follow_companies
        (filter (λ id. any (text_eq id) existing && not (any (text_eq id) already)) companies)
        effects next

  abbrev pub with_known :
      List Text
      → Option (List Text)
      → List RunEffect
      → (List RunEffect → List RunEffect × RunReply)
      → List RunEffect × RunReply
  with_known companies none effects next = failed_with effects (codes "company_lookup_failed")
  with_known companies (some existing) effects next =
      with_already companies existing (reads.followed_companies companies) effects next

  abbrev pub follow_chosen_companies :
      List Text
      → List RunEffect
      → (List RunEffect → List RunEffect × RunReply)
      → List RunEffect × RunReply
  follow_chosen_companies [] effects next = next effects
  follow_chosen_companies (id ∷ ids) effects next =
      with_known (id ∷ ids) (reads.known_companies (id ∷ ids)) effects next

  -- The handler for a signed-in visitor's body.
  unfoldable pub finish_first_run : RunBody → List RunEffect × RunReply
  unfolding dedupe plan_outcome disciplines_for_fields
  finish_first_run skip =
      if write save_skipped
      then (save_skipped ∷ [], skipped)
      else failed_with (save_skipped ∷ []) (codes "onboarding_save_failed")
  finish_first_run (complete fields companies role_ids) =
      let saving = save_completed (disciplines_for_fields fields) in
      if write saving
      then follow_chosen_companies (dedupe [] (map lower companies)) (saving ∷ [])
          (follow_requested (dedupe [] (map lower companies)) (dedupe [] role_ids))
      else failed_with (saving ∷ []) (codes "onboarding_save_failed")

-- `POST`, from its checks on: whether the site is configured, whether the request is of its own
-- origin and of a signed-in visitor, and the body, none where it is refused.
unfoldable pub post_onboarding :
    (configured same_origin signed_in : Bool)
    → Option RunBody
    → (RunBody → List RunEffect × RunReply)
    → List RunEffect × RunReply
post_onboarding false same_origin signed_in body finish =
    ([], error 503 (codes "supabase_unavailable"))
post_onboarding true false signed_in body finish = ([], error 403 (codes "cross_origin"))
post_onboarding true true false body finish = ([], error 401 (codes "unauthorized"))
post_onboarding true true true none finish = ([], error 400 (codes "invalid_onboarding_request"))
post_onboarding true true true (some body) finish = finish body
