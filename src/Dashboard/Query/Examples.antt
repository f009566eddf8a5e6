-- ===== src/Dashboard/Query/Examples.antt =====
-- A link to the roles view and the filters that are read back from it.
use stseen.Dashboard.{DashboardFilters, exact, by_company}
use stseen.Dashboard.Query.{parse_dashboard_filters, is_uuid, hex_groups, dedupe}
use stseen.Dashboard.Query.Href.{dashboard_href}
use stseen.Dashboard.Query.Link.{values_of}
use stseen.Dashboard.Query.RoundTrip.{parse_dashboard_filters-dashboard_href}
use stseen.Prelude.{ℕ, ◌≡◌, refl, ap, true, false, [], ◌∷◌, Option, some, Text, codes, arith}
use stseen.Prelude.Int.{ℤ, pos}
use stseen.Prelude.Words.{trim, is_space, digits_value, digits_value-decimal}

abbrev number : Text → Option ℕ
number t = some (digits_value 0 t)

abbrev parse_int : Text → Option ℤ
parse_int t = some (pos (digits_value 0 t))

abbrev same_letters : Text → Text
same_letters s = s

abbrev stated : DashboardFilters
stated = record {
  query = codes "big data";
  disciplines = codes "design" ∷ codes "data" ∷ [];
  companies = codes "0f8fad5b-d9cb-469f-a165-70867728950e" ∷ [];
  types = [];
  seasons = codes "summer" ∷ [];
  years = codes "2027" ∷ codes "unstated" ∷ [];
  window_days = some 60;
  confidence = codes "strong" ∷ [];
  min_cycles = some 2;
  precision = some exact;
  locations = [];
  listed_now = true;
  watched_only = false;
  sort = by_company;
  page = 12;
}

parse_dashboard_filters-dashboard_href_example :
    parse_dashboard_filters number parse_int same_letters (values_of (dashboard_href true stated))
    ≡ stated
unfolding trim is_space is_uuid hex_groups dedupe
parse_dashboard_filters-dashboard_href_example =
    parse_dashboard_filters-dashboard_href number parse_int same_letters
      (λ n h. ap some (digits_value-decimal n))
      (λ n h. ap (λ m. some (pos m)) (digits_value-decimal n)) stated
      (
        (refl, omega arith),
        ((refl, omega arith), refl),
        (refl, refl, refl, omega arith),
        ((refl, omega arith), refl),
        ((refl, omega arith), refl),
        (refl, refl, omega arith),
        refl,
        ((refl, omega arith), refl),
        refl,
        refl,
        (omega arith, omega arith),
      )
