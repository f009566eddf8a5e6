-- ===== src/Onboarding.antt =====
-- The first run: its answers, where they come from and what they ask the roles view for
-- (apps/web/lib/onboarding.ts).
pub mod Tables
pub mod Laws
pub mod Stored
pub mod Browse
pub mod Guest
pub mod Route
mod Examples
use stseen.Dashboard.{DashboardFilters, by_window}
use stseen.Dashboard.Query.{SearchParams, concat, dedupe, is_uuid, find_value}
use stseen.Dashboard.Query.Href.{dashboard_href}
use stseen.Onboarding.Tables.{
  LookingFor, looking_for_values, looking_for_text, types_of, FieldValue, field_values, field_text,
  disciplines_of, has_field,
}
use stseen.Prelude.{
  ℕ, Bool, true, false, not, ◌&&◌, ◌||◌, List, [], ◌∷◌, ◌++◌, Option, none, some, map, filter, all,
  any, take, head?, if◌then◌else◌, leb, ltb, ◌==◌, Text, text_eq, codes,
}

-- `MAX_COMPANIES`
abbrev pub max_companies : ℕ
max_companies = 10

-- `disciplinesForFields`
unfoldable pub disciplines_for_fields : List FieldValue → List Text
unfolding concat dedupe
disciplines_for_fields fields =
    dedupe [] (concat (map disciplines_of (filter (has_field fields) field_values)))

pub record OnboardingAnswers : Type 0 where
  pub looking_for : Option LookingFor
  pub fields : List FieldValue
  pub companies : List Text

-- A value of unknown shape: a string, or anything else.
pub data Unknown : Type 0 where
  string : Text → Unknown
  other : Unknown

abbrev pub is_string : Text → Unknown → Bool
is_string t (string s) = text_eq t s
is_string t other = false

abbrev pub looking_for_in : Unknown → Option LookingFor
looking_for_in (string t) = find_value looking_for_text looking_for_values t
looking_for_in other = none

abbrev pub or_nil {ℓ} : {A : Type ℓ} → Option (List A) → List A
or_nil none = []
or_nil (some xs) = xs

abbrev pub uuids : List Unknown → List Text
uuids [] = []
uuids (other ∷ values) = uuids values
uuids (string t ∷ values) = if is_uuid t then t ∷ uuids values else uuids values

-- What `cleanAnswers` takes; a list is none where the value is no array.
pub record RawAnswers : Type 0 where
  pub looking_for : Unknown
  pub fields : Option (List Unknown)
  pub companies : Option (List Unknown)

-- `cleanAnswers`, with the engine's `toLowerCase`.
unfoldable pub clean_answers : (Text → Text) → RawAnswers → OnboardingAnswers
unfolding dedupe
clean_answers lower raw = record {
  looking_for = looking_for_in raw.looking_for;
  fields = filter (λ f. any (is_string (field_text f)) (or_nil raw.fields)) field_values;
  companies = take max_companies (dedupe [] (map lower (uuids (or_nil raw.companies))));
}

abbrev pub string_or_other : Option Text → Unknown
string_or_other none = other
string_or_other (some t) = string t

-- `parseOnboardingAnswers`
unfoldable pub parse_onboarding_answers : (Text → Text) → SearchParams → OnboardingAnswers
unfolding clean_answers
parse_onboarding_answers lower params = clean_answers lower record {
  looking_for = string_or_other (head? (params (codes "for")));
  fields = some (map string (params (codes "field")));
  companies = some (map string (params (codes "company")));
}

abbrev has_none {ℓ} : {A : Type ℓ} → List A → Bool
has_none [] = true
has_none (x ∷ xs) = false

abbrev pub is_absent {ℓ} : {A : Type ℓ} → Option A → Bool
is_absent none = true
is_absent (some x) = false

-- `hasAnyAnswer`
unfoldable pub has_any_answer : OnboardingAnswers → Bool
has_any_answer a =
    not (is_absent a.looking_for) || not (has_none a.fields) || not (has_none a.companies)

abbrev pub step_pair : Bool → List (Text × Text)
step_pair ready = if ready then (codes "step", codes "ready") ∷ [] else []

abbrev pub for_pair : Option LookingFor → List (Text × Text)
for_pair none = []
for_pair (some looking_for) = (codes "for", looking_for_text looking_for) ∷ []

-- `welcomeHref` before it is written as a query string; `ready` is the payoff's step.
unfoldable pub welcome_href : (ready : Bool) → OnboardingAnswers → List (Text × Text)
welcome_href ready a =
    step_pair ready
    ++ (for_pair a.looking_for
        ++ (map (λ f. (codes "field", field_text f)) a.fields
            ++ map (λ c. (codes "company", c)) a.companies))

-- `programTypesFor`
abbrev pub program_types_for : Option LookingFor → List Text
program_types_for none = []
program_types_for (some looking_for) = types_of looking_for

-- `defaultDashboardFilters`
abbrev pub default_dashboard_filters : DashboardFilters
default_dashboard_filters = record {
  query = [];
  disciplines = [];
  companies = [];
  types = [];
  seasons = [];
  years = [];
  window_days = none;
  confidence = [];
  min_cycles = none;
  precision = none;
  locations = [];
  listed_now = false;
  watched_only = false;
  sort = by_window;
  page = 1;
}

-- `answersToFilters`
unfoldable pub answers_to_filters : OnboardingAnswers → DashboardFilters
unfolding disciplines_for_fields
answers_to_filters a = record default_dashboard_filters {
  types = program_types_for a.looking_for;
  disciplines = disciplines_for_fields a.fields;
}

-- `browseHref` before it is written as a query string.
unfoldable pub browse_href : OnboardingAnswers → List (Text × Text)
unfolding dashboard_href answers_to_filters
browse_href a = dashboard_href false (answers_to_filters a)

-- `answersFromPreferences`, from the disciplines that are stored.
unfoldable pub answers_from_preferences : (Text → Text) → List Text → OnboardingAnswers
unfolding clean_answers
answers_from_preferences lower stored = clean_answers lower record {
  looking_for = other;
  fields = some (
      map (λ f. string (field_text f))
        (filter (λ f. all (λ d. any (text_eq d) stored) (disciplines_of f)) field_values));
  companies = none;
}

-- `planOutcome` without `none`
pub data PlanOutcome : Type 0 where
  ready : PlanOutcome
  not_configured : PlanOutcome
  unreachable : PlanOutcome
  refused : PlanOutcome

abbrev is_unavailable : Option Text → Bool
is_unavailable none = false
is_unavailable (some error) = text_eq error (codes "readiness_api_unavailable")

-- `planOutcome`
unfoldable pub plan_outcome : ℕ → Option Text → PlanOutcome
plan_outcome status error =
    if leb 200 status && ltb status 300
    then ready
    else if status == 503
    then if is_unavailable error then not_configured else unreachable
    else if status == 502
    then unreachable
    else refused

-- `firstRunPending`, of the times at which the first run was completed and skipped.
unfoldable pub first_run_pending : Option Text → Option Text → ℕ → Bool
first_run_pending completed_at skipped_at followed_roles =
    is_absent completed_at && is_absent skipped_at && followed_roles == 0
