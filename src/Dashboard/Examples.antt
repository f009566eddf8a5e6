-- ===== src/Dashboard/Examples.antt =====
-- Five roles of two companies, and the theorems at them.
use stseen.Dashboard.{
  FilterKey, filter_keys, DashboardFilters, by_window, RoleFacts, cleared, per_company_limit,
}
use stseen.Dashboard.Matching.{filter_matches, matches_all, confidence_band}
use stseen.Dashboard.Order.{compare_roles}
use stseen.Dashboard.View.{matching_roles_of, shown_of, summary_of}
use stseen.Dashboard.View.Counts.{shown-add-collapsed, without-cleared}
use stseen.Dashboard.View.Listing.{matching_roles_ordered, items, listed, all_items, listed-all}
use Prim.Native.String.{String}
use mathlib.Core.List.{Perm}
use stseen.Dashboard.Query.{SearchParams, parse_dashboard_filters, all_values, is_uuid}
use stseen.Dashboard.Query.Laws.{IsParsed, parse_dashboard_filters-IsParsed}
use stseen.Dashboard.Query.Href.{dashboard_href}
use stseen.Dashboard.Relax.{is_applied, RelaxSuggestion, relax_suggestion}
use stseen.Dashboard.Relax.Laws.{found, Suits, relax_suggestion-best}
use stseen.Dashboard.Relax.Followed.{relax_suggestion-kept}
use stseen.Dashboard.Query.{dedupe}
use stseen.Dashboard.Query.Link.{values_of}
use stseen.Prelude.{
  arith, ℕ, ◌+◌, ◌*◌, ◌≤◌, ◌≡◌, refl, ap, true, false, Bool, List, [], ◌∷◌, Option, none, some, map,
  if◌then◌else◌, length, filter, All, Text, codes, text_eq,
}
use stseen.Prelude.Int.{ℤ, pos}
use stseen.Prelude.Sort.{IsSorted, sort}
use stseen.Prelude.Tally.{bump_all, bump, tally_of, excess}
use stseen.Prelude.Words.{trim, words, decimal, digits_value, digits_value-decimal}

-- A role of a company, its name also its id; a forecast so many days ahead, if there is one.
abbrev role : String → String → Bool → ℕ → RoleFacts
role company name forecast days = record {
  facts = record {
    id = codes name;
    company_id = codes company;
    company = codes company;
    role = codes name;
    discipline = some (codes "swe");
    program_type = none;
    season = codes "summer";
    target_year = some 2027;
    location = codes "Remote";
    listed_now = false;
    followed = true;
    forecastable = forecast;
    history_count = some 2;
    exact_events = 1;
    bounded_events = 0;
    observed_events = 1;
  };
  confidence = some 7600;
  days_until = some (pos days);
  search_text = codes name;
}

abbrev roles : List RoleFacts
roles =
    role "a" "r5" false 0
    ∷ role "a" "r2" true 20
    ∷ role "b" "r4" true 40
    ∷ role "a" "r1" true 10
    ∷ role "a" "r3" true 30
    ∷ []

abbrev no_filters : DashboardFilters
no_filters = record {
  query = [];
  disciplines = [];
  companies = [];
  types = [];
  seasons = [];
  years = [];
  window_days = none;
  confidence = [];
  min_cycles = none;
  precision = none;
  locations = [];
  listed_now = false;
  watched_only = false;
  sort = by_window;
  page = 1;
}

-- The letters are small already.
abbrev same_letters : Text → Text
same_letters s = s

abbrev within_month : DashboardFilters
within_month = record no_filters { window_days = some 30; query = codes " r " }

confidence_band_test :
    (confidence_band 7500 ≡ codes "strong") × (confidence_band 7499 ≡ codes "moderate")
unfolding confidence_band
confidence_band_test = (refl, refl)

matching_test :
    map (λ r. r.id) (matching_roles_of same_letters roles within_month)
    ≡ codes "r1" ∷ codes "r2" ∷ codes "r3" ∷ []
unfolding matching_roles_of matches_all filter_matches sort compare_roles trim words
matching_test = refl

shown_test :
    map {B = Text × ℕ} (λ p. (p.0.id, p.1)) (shown_of same_letters roles no_filters)
    ≡ (codes "r1", 1) ∷ (codes "r2", 2) ∷ (codes "r3", 3) ∷ (codes "r4", 1) ∷ []
unfolding shown_of matches_all filter_matches sort compare_roles trim words per_company_limit
    tally_of bump
shown_test = refl

summary_test :
    let s = summary_of same_letters roles no_filters in
    (s.matching_roles ≡ 5)
    × (s.shown_roles ≡ 4)
    × (s.collapsed_roles ≡ 1)
    × (s.collapsed_companies ≡ 1)
    × (s.opening_within_30_days ≡ 3)
unfolding summary_of matches_all filter_matches sort compare_roles trim words per_company_limit bump
    bump_all tally_of excess
summary_test = (refl, refl, refl, refl, refl)

shown-add-collapsed_example :
    let s = summary_of same_letters roles no_filters in
    s.shown_roles + s.collapsed_roles ≡ s.matching_roles
shown-add-collapsed_example = shown-add-collapsed same_letters roles no_filters

without-cleared_example :
    ((summary_of same_letters roles within_month).exclusions FilterKey.window).without
    ≡ (summary_of same_letters roles (cleared FilterKey.window within_month)).matching_roles
without-cleared_example = without-cleared same_letters roles within_month refl FilterKey.window

matching_roles_ordered_example :
    Perm
      (matching_roles_of same_letters roles within_month)
      (filter (λ r. matches_all same_letters r within_month) roles)
    × IsSorted (compare_roles by_window) (matching_roles_of same_letters roles within_month)
matching_roles_ordered_example = matching_roles_ordered same_letters roles within_month

abbrev no_forecast : RoleFacts → Option ℕ
no_forecast r = none

listed-all_example :
    ((p : ℕ) → length (items same_letters no_forecast no_forecast roles no_filters p) ≤ 20)
    × ((n : ℕ)
        → length (shown_of same_letters roles no_filters) ≤ n * 20
        → listed same_letters no_forecast no_forecast roles no_filters n
          ≡ all_items same_letters no_forecast no_forecast roles no_filters)
listed-all_example = listed-all same_letters no_forecast no_forecast roles no_filters

-- The filters of `?discipline=data,data,none&page=9&window=30`, with the engine's parts as needed.
abbrev url : SearchParams
url key =
    if text_eq key (codes "discipline")
    then codes "data, data,none" ∷ []
    else if text_eq key (codes "window")
    then codes "30" ∷ []
    else []

abbrev thirty : Text → Option ℕ
thirty t = if text_eq t (codes "30") then some 30 else none

abbrev nine : Text → Option ℤ
nine t = some (pos 9)

parse_test :
    let f = parse_dashboard_filters thirty nine same_letters url in
    (f.disciplines ≡ codes "data" ∷ []) × (f.window_days ≡ some 30) × (f.page ≡ 9)
unfolding parse_dashboard_filters all_values cleared trim is_uuid
parse_test = (refl, refl, refl)

is_uuid_tests :
    (is_uuid (codes "0f8fad5b-d9cb-469f-a165-70867728950e") ≡ true)
    × (is_uuid (codes "0f8fad5b-d9cb-469f-a165-70867728950") ≡ false)
unfolding is_uuid
is_uuid_tests = (refl, refl)

dashboard_href_test :
    dashboard_href true within_month ≡ (codes "q", codes "r") ∷ (codes "window", codes "30") ∷ []
unfolding dashboard_href trim decimal
dashboard_href_test = refl

parse_dashboard_filters-IsParsed_example :
    IsParsed same_letters (parse_dashboard_filters thirty nine same_letters url)
parse_dashboard_filters-IsParsed_example =
    parse_dashboard_filters-IsParsed thirty nine same_letters url

relax_suggestion-best_example :
    let s = summary_of same_letters roles within_month in
    Suits within_month s (relax_suggestion within_month s)
    × All
        (λ key.
          is_applied within_month key ≡ true
          → (s.exclusions key).without ≤ found within_month s (relax_suggestion within_month s))
        filter_keys
relax_suggestion-best_example =
    relax_suggestion-best within_month (summary_of same_letters roles within_month)

abbrev trimmed : DashboardFilters
trimmed = record within_month { query = codes "r" }

abbrev suggestion : RelaxSuggestion
suggestion = record { key = FilterKey.window; roles = 5; href = (codes "q", codes "r") ∷ [] }

abbrev number : Text → Option ℕ
number t = some (digits_value 0 t)

abbrev parse_int : Text → Option ℤ
parse_int t = some (pos (digits_value 0 t))

relax_suggestion-kept_example :
    (summary_of same_letters roles (
      parse_dashboard_filters number parse_int same_letters
        (values_of suggestion.href))).matching_roles
    ≡ 5
unfolding relax_suggestion summary_of matches_all filter_matches sort compare_roles trim words
    cleared is_applied dashboard_href dedupe
relax_suggestion-kept_example =
    relax_suggestion-kept number parse_int same_letters (λ n h. ap some (digits_value-decimal n))
      (λ n h. ap (λ m. some (pos m)) (digits_value-decimal n)) refl roles trimmed suggestion
      (
        (refl, omega arith),
        ((refl, omega arith), refl),
        (refl, refl, refl, omega arith),
        ((refl, omega arith), refl),
        ((refl, omega arith), refl),
        (refl, refl, omega arith),
        refl,
        ((refl, omega arith), refl),
        tt,
        refl,
        (omega arith, omega arith),
      )
      refl
