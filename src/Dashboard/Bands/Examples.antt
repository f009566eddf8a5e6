-- ===== src/Dashboard/Bands/Examples.antt =====
-- Four roles of two months, one of them without a date.
use stseen.Dashboard.{by_window}
use stseen.Dashboard.Bands.{Outlook, band_roles}
use stseen.Dashboard.Bands.Laws.{rows_of, IsFilled, AreApart, band_roles-banded}
use stseen.Dashboard.View.{ListItem}
use stseen.Prelude.{
  ◌≡◌, refl, true, false, ◌&&◌, List, [], ◌∷◌, Option, none, some, All, map, filter, ltb, Text,
  codes, length,
}
use stseen.Prelude.Int.{ℤ, pos}
use stseen.Prelude.Words.{digits_value}

abbrev row : Text → Option Outlook → ListItem Unit Outlook
row name outlook = record {
  facts = record {
    id = name;
    company_id = codes "acme";
    company = codes "Acme";
    role = name;
    discipline = none;
    program_type = none;
    season = codes "summer";
    target_year = none;
    location = codes "Remote";
    listed_now = false;
    followed = false;
    forecastable = true;
    history_count = none;
    exact_events = 0;
    bounded_events = 0;
    observed_events = 0;
  };
  company_rank = 1;
  company_total = 1;
  forecast = none;
  outlook = outlook;
  confidence = none;
}

-- The number that a date's digits make.
abbrev parse : Text → Option ℤ
parse date = some (pos (digits_value 0 (filter (λ c. ltb 47 c && ltb c 58) date)))

abbrev from : Text → Text → Option Outlook
from start expected = some record { expected = expected; start = start; end = expected }

abbrev first_row : ListItem Unit Outlook
first_row = row (codes "a") (from (codes "2026-04-01") (codes "2026-05-20"))

abbrev later_rows : List (ListItem Unit Outlook)
later_rows =
    row (codes "b") (from (codes "2026-06-01") (codes "2026-06-20"))
    ∷ row (codes "c") (from (codes "2026-06-02") (codes "2026-06-25"))
    ∷ row (codes "d") none
    ∷ []

abbrev now : Text
now = codes "2026-05-01T12:00:00.000Z"

band_roles_tests :
    (map (λ band. band.key) (band_roles Unit parse (λ t. t) now (first_row ∷ later_rows) by_window)
      ≡ codes "open" ∷ codes "2026-06" ∷ codes "undated" ∷ [])
    × (map
          (λ band. length band.items)
          (band_roles Unit parse (λ t. t) now (first_row ∷ later_rows) by_window)
        ≡ 1 ∷ 2 ∷ 1 ∷ [])
unfolding band_roles
band_roles_tests = (refl, refl)

band_roles-banded_example :
    (rows_of Unit parse
        (λ t. t)
        now
        (band_roles Unit parse (λ t. t) now (first_row ∷ later_rows) by_window)
      ≡ first_row ∷ later_rows)
    × All
        (IsFilled Unit parse (λ t. t) now)
        (band_roles Unit parse (λ t. t) now (first_row ∷ later_rows) by_window)
    × AreApart Unit parse
        (λ t. t)
        now
        (band_roles Unit parse (λ t. t) now (first_row ∷ later_rows) by_window)
band_roles-banded_example = band_roles-banded Unit parse (λ t. t) now first_row later_rows
