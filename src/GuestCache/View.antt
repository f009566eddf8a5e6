-- ===== src/GuestCache/View.antt =====
-- The roles view depends on its filters by what they match, their order, their page and their limit.
use stseen.Dashboard.{
  DashboardSort, FilterKey, query, discipline, company, type, season, year, window, confidence,
  cycles, precision, location, listed, watched, filter_keys, same_key, DashboardFilters, RoleFacts,
  per_company_limit, roles_per_company,
}
use stseen.Dashboard.Matching.{filter_matches, matches_all, is_empty, within, within_known}
use stseen.Dashboard.Order.{compare_roles}
use stseen.Dashboard.View.{
  DashboardSummary, ListItem, item_of, opens_within_30, company_ids, show, page_of,
  matching_roles_of, shown_of, exclusion_of, summary_of, build_dashboard_view,
}
use stseen.GuestCache.{canonical_list, canonical_filters}
use stseen.GuestCache.Canonical.{any-canonical_list, canonical_list-nil, tidy}
use stseen.GuestCache.Trim.{trim-trim}
use mathlib.Core.Path.{fun_ext}
use stseen.Prelude.{
  ℕ, ◌≡◌, refl, ap, sym, ◌∙◌, Bool, true, false, not, ◌&&◌, ◌||◌, List, [], ◌∷◌, Option, map,
  if◌then◌else◌, ltb, length, filter, count, all, any, none, some, Text, text_eq, text_eq_refl,
}
use stseen.Prelude.Sort.{sort}
use stseen.Prelude.Tally.{bump_all, excess}

module _ (lower : Text → Text) {F O : Type 0} (forecast_for : RoleFacts → Option F)
    (outlook_for : RoleFacts → Option O) (roles : List RoleFacts) where
  -- The view, from what matches, the order, the limit and the page.
  view_of :
      (RoleFacts → FilterKey → Bool)
      → DashboardSort
      → ℕ
      → ℕ
      → List (ListItem F O) × DashboardSummary
  view_of matches by cap page =
      let matching : List RoleFacts =
        sort (compare_roles by) (filter (λ r. all (matches r) filter_keys) roles) in
      let totals = bump_all [] (company_ids matching) in
      let shown = show cap [] matching in
      (
        map (item_of lower forecast_for outlook_for totals) (page_of page shown),
        record {
          in_scope_roles = length roles;
          outside_scope_roles = 0;
          forecastable_roles = count (λ r. r.forecastable) roles;
          insufficient_roles = count (λ r. not r.forecastable) roles;
          matching_roles = length matching;
          matching_forecastable = count (λ r. r.forecastable) matching;
          matching_insufficient = count (λ r. not r.forecastable) matching;
          shown_roles = length shown;
          collapsed_roles = if ltb 0 cap then excess cap totals else 0;
          collapsed_companies = if ltb 0 cap then count (λ t. ltb cap t.1) totals else 0;
          opening_within_30_days = count opens_within_30 matching;
          followed_roles = count (λ r. r.followed) roles;
          followed_forecastable = count (λ r. r.followed && r.forecastable) roles;
          exclusions = λ key. record {
            excluded = count (λ r. not (matches r key)) roles;
            without =
                count (λ r. all (λ other. same_key other key || matches r other) filter_keys) roles;
          };
        },
      )

  build_dashboard_view-view_of :
      (f : DashboardFilters)
      → build_dashboard_view lower forecast_for outlook_for roles f
        ≡ view_of (λ r key. filter_matches lower r f key) f.sort (per_company_limit f) f.page
  unfolding build_dashboard_view summary_of shown_of exclusion_of matching_roles_of matches_all
      view_of
  build_dashboard_view-view_of f = refl

is_empty_of_any : (p : Text → Bool) (xs : List Text) → any p xs ≡ true → is_empty xs ≡ false
is_empty_of_any p [] h = cc
is_empty_of_any p (x ∷ xs) h = refl

is_empty-canonical_list : (vs : List Text) → is_empty (canonical_list vs) ≡ is_empty vs
is_empty-canonical_list [] = ap is_empty canonical_list-nil
is_empty-canonical_list (v ∷ vs) =
    is_empty_of_any (text_eq v) (canonical_list (v ∷ vs))
      (any-canonical_list v (v ∷ vs) ∙ rw (text_eq_refl v) refl)

within-canonical_list : (vs : List Text) (v : Text) → within (canonical_list vs) v ≡ within vs v
within-canonical_list vs v = rw (is_empty-canonical_list vs, any-canonical_list v vs) refl

within_known-canonical_list :
    (vs : List Text) (o : Option Text) → within_known (canonical_list vs) o ≡ within_known vs o
within_known-canonical_list vs none = is_empty-canonical_list vs
within_known-canonical_list vs (some v) = within-canonical_list vs v

-- The filters in the one order, with the text to search for trimmed, match what the filters match.
filter_matches-canonical :
    (lower : Text → Text) (f : DashboardFilters) (r : RoleFacts) (key : FilterKey)
    → filter_matches lower r (tidy (canonical_filters f)) key ≡ filter_matches lower r f key
unfolding filter_matches canonical_filters
filter_matches-canonical lower f r query = rw (trim-trim f.query) refl
filter_matches-canonical lower f r discipline =
    within_known-canonical_list f.disciplines r.discipline
filter_matches-canonical lower f r company = within-canonical_list f.companies r.company_id
filter_matches-canonical lower f r type = within_known-canonical_list f.types r.program_type
filter_matches-canonical lower f r season = within-canonical_list f.seasons r.season
filter_matches-canonical lower f r year = within-canonical_list f.years _
filter_matches-canonical lower f r window = refl
filter_matches-canonical lower f r confidence = within-canonical_list f.confidence _
filter_matches-canonical lower f r cycles = refl
filter_matches-canonical lower f r precision = refl
filter_matches-canonical lower f r location = within-canonical_list f.locations r.location
filter_matches-canonical lower f r listed = refl
filter_matches-canonical lower f r watched = refl

limit_of_empty :
    (f g : DashboardFilters)
    → is_empty f.companies ≡ is_empty g.companies
    → per_company_limit f ≡ per_company_limit g
unfolding per_company_limit
limit_of_empty f g h = limit f.companies g.companies h
  where
    limit :
        (vs ws : List Text)
        → is_empty vs ≡ is_empty ws
        → (elim vs [ [] ↦ roles_per_company | c ∷ cs ↦ 0 ])
          ≡ (elim ws [ [] ↦ roles_per_company | c ∷ cs ↦ 0 ])
    limit [] [] h = refl
    limit [] (w ∷ ws) h = cc
    limit (v ∷ vs) [] h = cc
    limit (v ∷ vs) (w ∷ ws) h = refl

-- The filters in the one order are shown the same view.
pub build_dashboard_view-canonical :
    (lower : Text → Text) {F O : Type 0} (forecast_for : RoleFacts → Option F)
    (outlook_for : RoleFacts → Option O) (roles : List RoleFacts) (f : DashboardFilters)
    → build_dashboard_view lower forecast_for outlook_for roles (tidy (canonical_filters f))
      ≡ build_dashboard_view lower forecast_for outlook_for roles f
unfolding canonical_filters
build_dashboard_view-canonical lower forecast_for outlook_for roles f =
    let g = tidy (canonical_filters f) in
    let view = view_of lower forecast_for outlook_for roles in
    build_dashboard_view-view_of lower forecast_for outlook_for roles g
    ∙ ap (λ matches. view matches f.sort (per_company_limit g) f.page)
        (fun_ext λ r. fun_ext λ key. filter_matches-canonical lower f r key)
    ∙ ap (λ cap. view (λ r key. filter_matches lower r f key) f.sort cap f.page)
        (limit_of_empty g f (is_empty-canonical_list f.companies))
    ∙ sym (build_dashboard_view-view_of lower forecast_for outlook_for roles f)
