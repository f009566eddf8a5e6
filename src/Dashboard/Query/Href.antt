-- ===== src/Dashboard/Query/Href.antt =====
-- The parameters that a link to the roles view states.
use stseen.Dashboard.{
  Precision, DashboardSort, by_window, by_confidence, by_evidence, by_company, DashboardFilters,
}
use stseen.Prelude.{
  ℕ, Bool, true, false, not, List, [], ◌∷◌, ◌++◌, Option, none, some, map, if◌then◌else◌, ltb, Text,
  codes,
}
use stseen.Prelude.Words.{trim, decimal}
use stseen.Dashboard.Query.{is_text, precision_value, sort_value}

abbrev pub pairs : Text → List Text → List (Text × Text)
pairs key = map λ value. (key, value)

abbrev pub pair_if : Bool → Text → Text → List (Text × Text)
pair_if true key value = (key, value) ∷ []
pair_if false key value = []

-- A number that is set; zero counts as not set.
abbrev pub number_pair : Text → Option ℕ → List (Text × Text)
number_pair key none = []
number_pair key (some n) = pair_if (ltb 0 n) key (decimal n)

abbrev pub precision_pair : Option Precision → List (Text × Text)
precision_pair none = []
precision_pair (some p) = (codes "precision", precision_value p) ∷ []

abbrev pub is_by_window : DashboardSort → Bool
is_by_window by_window = true
is_by_window by_confidence = false
is_by_window by_evidence = false
is_by_window by_company = false

-- `dashboardHref` of the filters with the changes made, before it is written as a query string;
-- without a page among the changes, `keep_page` is false.
unfoldable pub dashboard_href : (keep_page : Bool) → DashboardFilters → List (Text × Text)
dashboard_href keep_page f =
    let page = if keep_page then f.page else 1 in
    pair_if (is_text (trim f.query)) (codes "q") (trim f.query)
    ++ (pairs (codes "discipline") f.disciplines
        ++ (pairs (codes "company") f.companies
            ++ (pairs (codes "type") f.types
                ++ (pairs (codes "season") f.seasons
                    ++ (pairs (codes "year") f.years
                        ++ (number_pair (codes "window") f.window_days
                            ++ (pairs (codes "confidence") f.confidence
                                ++ (number_pair (codes "cycles") f.min_cycles
                                    ++ (precision_pair f.precision
                                        ++ (pairs (codes "location") f.locations
                                            ++ (pair_if f.listed_now (codes "listed") (codes "1")
                                                ++ (pair_if f.watched_only (codes "watched")
                                                      (codes "1")
                                                    ++ (pair_if (not (is_by_window f.sort))
                                                          (codes "sort") (sort_value f.sort)
                                                        ++ pair_if (ltb 1 page) (codes "page")
                                                            (decimal page))))))))))))))
