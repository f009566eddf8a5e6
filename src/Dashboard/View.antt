-- ===== src/Dashboard/View.antt =====
-- `buildDashboardView`: the page, the counts and the exclusions for a set of role facts.
pub mod Counts
pub mod Listing
use stseen.Dashboard.{
  dashboard_page_size, FilterKey, same_key, filter_keys, DashboardFilters, ListedFacts, RoleFacts,
  per_company_limit,
}
use stseen.Dashboard.Matching.{filter_matches, matches_all}
use stseen.Dashboard.Order.{compare_roles}
use stseen.Prelude.{
  ℕ, suc, ◌+◌, ◌-◌, ◌*◌, Bool, true, false, not, ◌&&◌, ◌||◌, List, [], ◌∷◌, ◌++◌, Option, none,
  some, map, if◌then◌else◌, ltb, leb, ◌==◌, length, take, drop, filter, count, all, Text,
}
use stseen.Prelude.Int.{ℤ, pos, leb_ℤ}
use stseen.Prelude.Sort.{sort}
use stseen.Prelude.Tally.{Tally, tally_of, bump, bump_all, excess}

pub record Exclusion : Type 0 where
  pub excluded : ℕ
  pub without : ℕ

-- `DashboardSummary`
pub record DashboardSummary : Type 0 where
  pub in_scope_roles : ℕ
  pub outside_scope_roles : ℕ
  pub forecastable_roles : ℕ
  pub insufficient_roles : ℕ
  pub matching_roles : ℕ
  pub matching_forecastable : ℕ
  pub matching_insufficient : ℕ
  pub shown_roles : ℕ
  pub collapsed_roles : ℕ
  pub collapsed_companies : ℕ
  pub opening_within_30_days : ℕ
  pub followed_roles : ℕ
  pub followed_forecastable : ℕ
  pub exclusions : FilterKey → Exclusion

-- `DashboardListItem`; `basis` is null in what this function builds.
pub record ListItem (F O : Type 0) : Type 0 where
  pub facts : ListedFacts
  pub open facts use *
  pub company_rank : ℕ
  pub company_total : ℕ
  pub forecast : Option F
  pub outlook : Option O
  pub confidence : Option ℕ

-- The loop that makes `shown`: the roles past their company's limit are left out.
unfoldable pub show : ℕ → Tally → List RoleFacts → List (RoleFacts × ℕ)
show cap seen [] = []
show cap seen (r ∷ rs) =
    let rank = suc (tally_of r.company_id seen) in
    let rest = show cap (bump r.company_id seen) rs in
    if ltb 0 cap && ltb cap rank then rest else (r, rank) ∷ rest

-- `shown.slice(offset, offset + DASHBOARD_PAGE_SIZE)`; from a page 0 it would slice up to 0.
unfoldable pub page_of {ℓ} : {A : Type ℓ} → ℕ → List A → List A
page_of page xs =
    if page == 0 then [] else take dashboard_page_size (drop ((page - 1) * dashboard_page_size) xs)

abbrev if_forecastable {ℓ} : {A : Type ℓ} → Bool → Option A → Option A
if_forecastable true v = v
if_forecastable false v = none

abbrev pub opens_within_30 : RoleFacts → Bool
opens_within_30 r = r.forecastable && soon r.days_until
  where
    soon : Option ℤ → Bool
    soon none = false
    soon (some d) = leb_ℤ d (pos 30)

abbrev pub company_ids : List RoleFacts → List Text
company_ids = map λ r. r.company_id

module _ (lower : Text → Text) where
  unfoldable pub matching_roles_of : List RoleFacts → DashboardFilters → List RoleFacts
  matching_roles_of roles f =
      sort (compare_roles f.sort) (filter (λ r. matches_all lower r f) roles)

  unfoldable pub shown_of : List RoleFacts → DashboardFilters → List (RoleFacts × ℕ)
  unfolding show matching_roles_of
  shown_of roles f = show (per_company_limit f) [] (matching_roles_of roles f)

  unfoldable pub exclusion_of : List RoleFacts → DashboardFilters → FilterKey → Exclusion
  exclusion_of roles f key = record {
    excluded = count (λ r. not (filter_matches lower r f key)) roles;
    without =
        count (λ r. all (λ other. same_key other key || filter_matches lower r f other) filter_keys)
          roles;
  }

  unfoldable pub summary_of : List RoleFacts → DashboardFilters → DashboardSummary
  unfolding shown_of exclusion_of
  summary_of roles f =
      let matching = matching_roles_of roles f in
      let cap = per_company_limit f in
      let totals = bump_all [] (company_ids matching) in
      record {
        in_scope_roles = length roles;
        outside_scope_roles = 0;
        forecastable_roles = count (λ r. r.forecastable) roles;
        insufficient_roles = count (λ r. not r.forecastable) roles;
        matching_roles = length matching;
        matching_forecastable = count (λ r. r.forecastable) matching;
        matching_insufficient = count (λ r. not r.forecastable) matching;
        shown_roles = length (shown_of roles f);
        collapsed_roles = if ltb 0 cap then excess cap totals else 0;
        collapsed_companies = if ltb 0 cap then count (λ t. ltb cap t.1) totals else 0;
        opening_within_30_days = count opens_within_30 matching;
        followed_roles = count (λ r. r.followed) roles;
        followed_forecastable = count (λ r. r.followed && r.forecastable) roles;
        exclusions = exclusion_of roles f;
      }

  module _ {F O : Type 0} (forecast_for : RoleFacts → Option F)
      (outlook_for : RoleFacts → Option O) where
    abbrev pub item_of : Tally → RoleFacts × ℕ → ListItem F O
    item_of totals (r, rank) = record {
      facts = r.facts;
      company_rank = rank;
      company_total = tally_of r.company_id totals;
      forecast = if_forecastable r.forecastable (forecast_for r);
      outlook = if_forecastable r.forecastable (outlook_for r);
      confidence = if_forecastable r.forecastable r.confidence;
    }

    unfoldable pub build_dashboard_view :
        List RoleFacts → DashboardFilters → List (ListItem F O) × DashboardSummary
    unfolding summary_of page_of
    build_dashboard_view roles f =
        let totals = bump_all [] (company_ids (matching_roles_of roles f)) in
        (map (item_of totals) (page_of f.page (shown_of roles f)), summary_of roles f)
