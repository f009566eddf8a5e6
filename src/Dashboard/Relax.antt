-- ===== src/Dashboard/Relax.antt =====
-- The filters that are applied, and the one whose removal would add the most roles.
pub mod Laws
pub mod Followed
use stseen.Dashboard.{
  FilterKey, filter_keys, Precision, exact, exact_or_bounded, observed_only, no_opening,
  DashboardSort, by_window, by_confidence, by_evidence, by_company, DashboardFilters, cleared,
}
use stseen.Dashboard.Matching.{is_empty}
use stseen.Dashboard.View.{DashboardSummary, Exclusion}
use stseen.Prelude.{
  ℕ, zero, suc, ◌+◌, ◌-◌, ◌*◌, min, max, Bool, true, false, not, ◌&&◌, ◌||◌, List, [], ◌∷◌, ◌++◌,
  Option, none, some, map, if◌then◌else◌, ltb, leb, ◌==◌, take, filter, any, head?, Text, codes,
  text_eq,
}
use stseen.Prelude.Int.{ℤ, pos, negsuc}
use stseen.Prelude.Words.{trim, split_on, decimal}
use stseen.Dashboard.Query.{is_text}
use stseen.Dashboard.Query.Href.{dashboard_href}

abbrev is_known {ℓ} : {A : Type ℓ} → Option A → Bool
is_known none = false
is_known (some a) = true

-- `applied` of `appliedFilterKeys`
unfoldable pub is_applied : DashboardFilters → FilterKey → Bool
is_applied f FilterKey.query = is_text (trim f.query)
is_applied f FilterKey.discipline = not (is_empty f.disciplines)
is_applied f FilterKey.company = not (is_empty f.companies)
is_applied f FilterKey.type = not (is_empty f.types)
is_applied f FilterKey.season = not (is_empty f.seasons)
is_applied f FilterKey.year = not (is_empty f.years)
is_applied f FilterKey.window = is_known f.window_days
is_applied f FilterKey.confidence = not (is_empty f.confidence)
is_applied f FilterKey.cycles = is_known f.min_cycles
is_applied f FilterKey.precision = is_known f.precision
is_applied f FilterKey.location = not (is_empty f.locations)
is_applied f FilterKey.listed = f.listed_now
is_applied f FilterKey.watched = f.watched_only

-- `appliedFilterKeys`
unfoldable pub applied_filter_keys : DashboardFilters → List FilterKey
applied_filter_keys f = filter (is_applied f) filter_keys

-- `RelaxSuggestion`, without the filter's name for display. The link is its parameters, before they
-- are written as a query string.
pub record RelaxSuggestion : Type 0 where
  pub key : FilterKey
  pub roles : ℕ
  pub href : List (Text × Text)

abbrev is_better : ℕ → Option RelaxSuggestion → Bool
is_better roles none = true
is_better roles (some best) = ltb best.roles roles

-- The loop of `relaxSuggestion`.
unfoldable pub relax_from :
    DashboardFilters
    → DashboardSummary
    → Option RelaxSuggestion
    → List FilterKey
    → Option RelaxSuggestion
relax_from f s best [] = best
relax_from f s best (key ∷ keys) =
    let roles = (s.exclusions key).without in
    relax_from f s
      (if ltb s.matching_roles roles && is_better roles best
        then some (record { key = key; roles = roles; href = dashboard_href false (cleared key f) })
        else best)
      keys

-- `relaxSuggestion`
unfoldable pub relax_suggestion : DashboardFilters → DashboardSummary → Option RelaxSuggestion
unfolding relax_from applied_filter_keys
relax_suggestion f s = relax_from f s none (applied_filter_keys f)
