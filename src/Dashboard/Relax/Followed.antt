-- ===== src/Dashboard/Relax/Followed.antt =====
-- The link of a suggestion, followed.
use stseen.Dashboard.{FilterKey, DashboardFilters, RoleFacts, cleared}
use stseen.Dashboard.Matching.{filter_matches, matches_all}
use stseen.Dashboard.Query.{dedupe, parse_dashboard_filters}
use stseen.Dashboard.Query.Href.{dashboard_href}
use stseen.Dashboard.Query.Link.{values_of}
use stseen.Dashboard.Query.RoundTrip.{IsCanonical, parse_dashboard_filters-dashboard_href}
use stseen.Dashboard.Relax.Laws.{Suits, relax_suggestion-best}
use stseen.Dashboard.Relax.{RelaxSuggestion, relax_suggestion}
use stseen.Dashboard.View.{summary_of, matching_roles_of}
use stseen.Dashboard.View.Counts.{without-cleared}
use stseen.Prelude.Int.{ℤ, pos}
use stseen.Prelude.Words.{trim, decimal}
use stseen.Prelude.{
  ℕ, ◌≤◌, ◌≡◌, refl, sym, ◌∙◌, ap, true, List, [], Option, some, false, Text, arith, subst,
}

matching-page :
    (lower : Text → Text) (roles : List RoleFacts) (f : DashboardFilters)
    → (summary_of lower roles (record f { page = 1 })).matching_roles
      ≡ (summary_of lower roles f).matching_roles
unfolding summary_of matching_roles_of matches_all filter_matches
matching-page lower roles f = refl

-- A link that states no page leads to the first one.
href-first_page :
    (f : DashboardFilters) → dashboard_href false f ≡ dashboard_href true (record f { page = 1 })
unfolding dashboard_href
href-first_page f = refl

cleared-IsCanonical :
    (lower : Text → Text) (f : DashboardFilters) (key : FilterKey)
    → IsCanonical lower f
    → IsCanonical lower (record (cleared key f) { page = 1 })
unfolding dedupe trim cleared
cleared-IsCanonical lower f FilterKey.query (a, b, c, d, e, g, h, i, j, k, l) =
    ((refl, omega arith), b, c, d, e, g, h, i, j, k, (omega arith, omega arith))
cleared-IsCanonical lower f FilterKey.discipline (a, b, c, d, e, g, h, i, j, k, l) =
    (a, ((refl, omega arith), refl), c, d, e, g, h, i, j, k, (omega arith, omega arith))
cleared-IsCanonical lower f FilterKey.company (a, b, c, d, e, g, h, i, j, k, l) =
    (a, b, (refl, refl, refl, omega arith), d, e, g, h, i, j, k, (omega arith, omega arith))
cleared-IsCanonical lower f FilterKey.type (a, b, c, d, e, g, h, i, j, k, l) =
    (a, b, c, ((refl, omega arith), refl), e, g, h, i, j, k, (omega arith, omega arith))
cleared-IsCanonical lower f FilterKey.season (a, b, c, d, e, g, h, i, j, k, l) =
    (a, b, c, d, ((refl, omega arith), refl), g, h, i, j, k, (omega arith, omega arith))
cleared-IsCanonical lower f FilterKey.year (a, b, c, d, e, g, h, i, j, k, l) =
    (a, b, c, d, e, (refl, refl, omega arith), h, i, j, k, (omega arith, omega arith))
cleared-IsCanonical lower f FilterKey.window (a, b, c, d, e, g, h, i, j, k, l) =
    (a, b, c, d, e, g, tt, i, j, k, (omega arith, omega arith))
cleared-IsCanonical lower f FilterKey.confidence (a, b, c, d, e, g, h, i, j, k, l) =
    (a, b, c, d, e, g, h, ((refl, omega arith), refl), j, k, (omega arith, omega arith))
cleared-IsCanonical lower f FilterKey.cycles (a, b, c, d, e, g, h, i, j, k, l) =
    (a, b, c, d, e, g, h, i, tt, k, (omega arith, omega arith))
cleared-IsCanonical lower f FilterKey.precision (a, b, c, d, e, g, h, i, j, k, l) =
    (a, b, c, d, e, g, h, i, j, k, (omega arith, omega arith))
cleared-IsCanonical lower f FilterKey.location (a, b, c, d, e, g, h, i, j, k, l) =
    (a, b, c, d, e, g, h, i, j, refl, (omega arith, omega arith))
cleared-IsCanonical lower f FilterKey.listed (a, b, c, d, e, g, h, i, j, k, l) =
    (a, b, c, d, e, g, h, i, j, k, (omega arith, omega arith))
cleared-IsCanonical lower f FilterKey.watched (a, b, c, d, e, g, h, i, j, k, l) =
    (a, b, c, d, e, g, h, i, j, k, (omega arith, omega arith))

-- The link of a suggestion, read back as the page reads it, leads to a view that finds as many roles
-- as the suggestion says. The filters are canonical: the text trimmed and at most 200 code units,
-- different values of the tables, years and small-letter UUIDs of companies, at most twenty of each,
-- no location, a page from 1 to 10000. `number` and `parse_int` read the numerals up to 10000, and
-- `lower` keeps the empty text.
pub relax_suggestion-kept :
    (number : Text → Option ℕ) (parse_int : Text → Option ℤ) (lower : Text → Text)
    → ((n : ℕ) → n ≤ 10000 → number (decimal n) ≡ some n)
    → ((n : ℕ) → n ≤ 10000 → parse_int (decimal n) ≡ some (pos n))
    → lower [] ≡ []
    → (roles : List RoleFacts) (f : DashboardFilters) (r : RelaxSuggestion) → IsCanonical lower f
    → relax_suggestion f (summary_of lower roles f) ≡ some r
    → (summary_of lower roles
        (parse_dashboard_filters number parse_int lower (values_of r.href))).matching_roles
      ≡ r.roles
relax_suggestion-kept number parse_int lower h k empty roles f r canonical e =
    let s = summary_of lower roles f in
    let suits = subst (Suits f s) e (relax_suggestion-best f s).0 in
    ap
      (λ href.
        (summary_of lower roles
          (parse_dashboard_filters number parse_int lower (values_of href))).matching_roles)
      (suits.3 ∙ href-first_page (cleared r.key f))
    ∙ ap (λ g. (summary_of lower roles g).matching_roles)
        (parse_dashboard_filters-dashboard_href number parse_int lower h k
          (record (cleared r.key f) { page = 1 }) (cleared-IsCanonical lower f r.key canonical))
    ∙ matching-page lower roles (cleared r.key f)
    ∙ sym (without-cleared lower roles f empty r.key)
    ∙ sym suits.1
