-- ===== src/GuestCache/Sound.antt =====
-- Two requests with one key are shown one roles view.
use stseen.Dashboard.{DashboardFilters, RoleFacts, cleared}
use stseen.Dashboard.Query.{
  SearchParams, all_values, disciplines, program_types, seasons, confidence_bands, is_uuid, is_year,
  parse_dashboard_filters,
}
use stseen.Dashboard.Query.Href.{dashboard_href}
use stseen.Dashboard.Query.Laws.{
  IsChoice, parse_dashboard_filters-IsParsed, length-all_values, length-filter-le, all-filter,
}
use stseen.Dashboard.Query.Link.{values_of}
use stseen.Dashboard.Query.RoundTrip.{IsChosen, IsCanonical, parse_dashboard_filters-dashboard_href}
use stseen.GuestCache.{canonical_list, canonical_filters, roles_key}
use stseen.GuestCache.Canonical.{
  dedupe-canonical_list, canonical_list-All, length-canonical_list-le, canonical_list-nil, tidy,
}
use stseen.GuestCache.Trim.{trim-trim}
use stseen.GuestCache.View.{build_dashboard_view-canonical}
use stseen.Dashboard.View.{build_dashboard_view}
use stseen.Onboarding.Laws.{lowered-All}
use stseen.Prelude.{
  ℕ, ◌≤◌, ◌≡◌, refl, ap, sym, ◌∙◌, Bool, true, List, [], ◌∷◌, Option, some, map, filter, all, any,
  all_of_All, all-All, All, All-map, length, length-map, Text, text_eq, codes, arith,
}
use stseen.Prelude.Int.{ℤ, pos}
use stseen.Prelude.Words.{length-trim-le, decimal}

dashboard_href-tidy : (f : DashboardFilters) → dashboard_href true (tidy f) ≡ dashboard_href true f
unfolding dashboard_href
dashboard_href-tidy f = rw (trim-trim f.query) refl

all-canonical_list :
    (p : Text → Bool) (vs : List Text) → all p vs ≡ true → all p (canonical_list vs) ≡ true
all-canonical_list p vs h =
    all_of_All p (canonical_list vs) (canonical_list-All (λ v. p v ≡ true) vs (all-All p vs h))

canonical_list-IsChosen :
    (table vs : List Text) → IsChoice table vs → IsChosen table (canonical_list vs)
canonical_list-IsChosen table vs h = (
  (
    all-canonical_list (λ v. any (text_eq v) table) vs h.0,
    omega (arith, length-canonical_list-le vs),
  ),
  dedupe-canonical_list vs,
)

map_of_All :
    (lower : Text → Text) (vs : List Text)
    → All (λ c. (is_uuid c ≡ true) × (lower c ≡ c)) vs
    → map lower vs ≡ vs
map_of_All lower [] h = refl
map_of_All lower (v ∷ vs) h = rw (h.0.1, map_of_All lower vs h.1) refl

-- The engine's parts: what they do with the numerals that a link states and with UUIDs.
module _ (number : Text → Option ℕ) (parse_int : Text → Option ℤ) (lower : Text → Text)
    (number-decimal : (n : ℕ) → n ≤ 10000 → number (decimal n) ≡ some n)
    (parse_int-decimal : (n : ℕ) → n ≤ 10000 → parse_int (decimal n) ≡ some (pos n))
    (lower-is_uuid : (t : Text) → is_uuid t ≡ true → is_uuid (lower t) ≡ true)
    (lower-lower : (t : Text) → lower (lower t) ≡ lower t) where
  abbrev parsed : SearchParams → DashboardFilters
  parsed = parse_dashboard_filters number parse_int lower

  companies-All :
      (params : SearchParams)
      → All (λ c. (is_uuid c ≡ true) × (lower c ≡ c)) (canonical_list (parsed params).companies)
  unfolding parse_dashboard_filters cleared
  companies-All params =
      let ids = filter is_uuid (all_values params (codes "company")) in
      canonical_list-All (λ c. (is_uuid c ≡ true) × (lower c ≡ c)) (map lower ids)
        (lowered-All lower lower-is_uuid lower-lower ids
          (all-All is_uuid ids (all-filter is_uuid (all_values params (codes "company")))))

  length-companies :
      (params : SearchParams) → length (canonical_list (parsed params).companies) ≤ 20
  unfolding parse_dashboard_filters cleared
  length-companies params =
      let ids = filter is_uuid (all_values params (codes "company")) in
      omega (
        arith,
        length-canonical_list-le (map lower ids),
        length-map lower ids,
        length-filter-le is_uuid (all_values params (codes "company")),
        length-all_values params (codes "company"),
      )

  length-years : (params : SearchParams) → length (canonical_list (parsed params).years) ≤ 20
  unfolding parse_dashboard_filters cleared
  length-years params = omega (
    arith,
    length-canonical_list-le (filter is_year (all_values params (codes "year"))),
    length-filter-le is_year (all_values params (codes "year")),
    length-all_values params (codes "year"),
  )

  tidy-IsCanonical :
      (params : SearchParams) → IsCanonical lower (tidy (canonical_filters (parsed params)))
  unfolding canonical_filters
  tidy-IsCanonical params =
      let (
        locations,
        query,
        disc,
        types,
        seas,
        conf,
        (years, some_years),
        window,
        cycles,
        low,
        high,
        ids,
      ) =
        parse_dashboard_filters-IsParsed number parse_int lower params in
      (
        (trim-trim (parsed params).query, omega (arith, length-trim-le (parsed params).query)),
        canonical_list-IsChosen disciplines (parsed params).disciplines disc,
        (
          all_of_All is_uuid (canonical_list (parsed params).companies) (
              All-map (λ c. (is_uuid c ≡ true) × (lower c ≡ c)) (λ c. is_uuid c ≡ true)
                (canonical_list (parsed params).companies) (λ c h. h.0) (companies-All params)),
          map_of_All lower (canonical_list (parsed params).companies) (companies-All params),
          dedupe-canonical_list (parsed params).companies,
          length-companies params,
        ),
        canonical_list-IsChosen program_types (parsed params).types types,
        canonical_list-IsChosen seasons (parsed params).seasons seas,
        (
          all-canonical_list is_year (parsed params).years years,
          dedupe-canonical_list (parsed params).years,
          length-years params,
        ),
        window,
        canonical_list-IsChosen confidence_bands (parsed params).confidence conf,
        cycles,
        ap canonical_list locations ∙ canonical_list-nil,
        (low, high),
      )

  -- The filters that the key of a request states.
  read_back :
      (params : SearchParams)
      → parsed (values_of (roles_key number parse_int lower params))
        ≡ tidy (canonical_filters (parsed params))
  unfolding roles_key
  read_back params =
      ap (λ link. parsed (values_of link))
        (sym (dashboard_href-tidy (canonical_filters (parsed params))))
      ∙ parse_dashboard_filters-dashboard_href number parse_int lower number-decimal
          parse_int-decimal (tidy (canonical_filters (parsed params))) (tidy-IsCanonical params)

  -- Two requests with one key have the same filters but for the order of their values.
  tidy_of_same_key :
      (p q : SearchParams)
      → roles_key number parse_int lower p ≡ roles_key number parse_int lower q
      → tidy (canonical_filters (parsed p)) ≡ tidy (canonical_filters (parsed q))
  tidy_of_same_key p q h = sym (read_back p) ∙ ap (λ link. parsed (values_of link)) h ∙ read_back q

  -- Two requests that are kept under one key are shown the same page of the same roles with the
  -- same counts, whatever the roles: no visitor is served the view of another's filters.
  pub build_dashboard_view-roles_key :
      {F O : Type 0} (forecast_for : RoleFacts → Option F) (outlook_for : RoleFacts → Option O)
      (roles : List RoleFacts) (p q : SearchParams)
      → roles_key number parse_int lower p ≡ roles_key number parse_int lower q
      → build_dashboard_view lower forecast_for outlook_for roles
          (parse_dashboard_filters number parse_int lower p)
        ≡ build_dashboard_view lower forecast_for outlook_for roles
            (parse_dashboard_filters number parse_int lower q)
  build_dashboard_view-roles_key forecast_for outlook_for roles p q h =
      sym (build_dashboard_view-canonical lower forecast_for outlook_for roles (parsed p))
      ∙ ap (build_dashboard_view lower forecast_for outlook_for roles) (tidy_of_same_key p q h)
      ∙ build_dashboard_view-canonical lower forecast_for outlook_for roles (parsed q)
