-- ===== src/Dashboard/Matching.antt =====
-- `filterMatches`, the predicates of the filters, one for each key.
pub mod Keys
pub mod Laws
use stseen.Dashboard.{
  FilterKey, query, discipline, company, type, season, year, window, confidence, cycles, precision,
  location, listed, watched, filter_keys, Precision, exact, exact_or_bounded, observed_only,
  no_opening, DashboardFilters, RoleFacts,
}
use stseen.Prelude.{
  ℕ, ◌+◌, Bool, true, false, not, ◌&&◌, ◌||◌, List, [], ◌∷◌, Option, none, some, if◌then◌else◌, ltb,
  leb, ◌==◌, all, any, Text, codes, text_eq, includes,
}
use stseen.Prelude.Int.{ℤ, pos, leb_ℤ}
use stseen.Prelude.Words.{trim, words, decimal}

-- `values.includes(value)`
abbrev pub has : List Text → Text → Bool
has values value = any (text_eq value) values

abbrev pub is_empty : List Text → Bool
is_empty [] = true
is_empty (v ∷ vs) = false

-- `within(values, value)`: no value at all lets everything through.
abbrev pub within : List Text → Text → Bool
within values value = is_empty values || has values value

abbrev pub within_known : List Text → Option Text → Bool
within_known values none = is_empty values
within_known values (some value) = is_empty values || has values value

-- `confidenceBand`
unfoldable pub confidence_band : ℕ → Text
confidence_band c =
    if leb 7500 c then codes "strong" else if leb 6000 c then codes "moderate" else codes "limited"

abbrev stored_band : Bool → Option ℕ → Text
stored_band true (some c) = confidence_band c
stored_band true none = codes "none"
stored_band false c = codes "none"

abbrev year_value : Option ℕ → Text
year_value none = codes "unstated"
year_value (some y) = decimal y

abbrev in_window : Option ℕ → Bool → Option ℤ → Bool
in_window none forecastable days = true
in_window (some limit) forecastable none = false
in_window (some limit) forecastable (some days) = forecastable && leb_ℤ days (pos limit)

abbrev count_or_zero : Option ℕ → ℕ
count_or_zero none = 0
count_or_zero (some n) = n

abbrev enough_cycles : Option ℕ → Bool → Option ℕ → Bool
enough_cycles none forecastable history = true
enough_cycles (some least) forecastable history = forecastable && leb least (count_or_zero history)

-- `precision[filters.precision]`, from the numbers of exact, bounded and observed-by openings.
abbrev precision_matches : Option Precision → ℕ → ℕ → ℕ → Bool
precision_matches none e b o = true
precision_matches (some exact) e b o = ltb 0 e
precision_matches (some exact_or_bounded) e b o = ltb 0 (e + b)
precision_matches (some observed_only) e b o = ltb 0 o && e + b == 0
precision_matches (some no_opening) e b o = e + b + o == 0

-- `lower` is `String.prototype.toLowerCase`, which the engine's Unicode tables define.
module _ (lower : Text → Text) where
  -- `filterMatches(role, filters)[key]`
  unfoldable pub filter_matches : RoleFacts → DashboardFilters → FilterKey → Bool
  filter_matches r f query = all (includes (lower r.search_text)) (words (lower (trim f.query)))
  filter_matches r f discipline = within_known f.disciplines r.discipline
  filter_matches r f company = within f.companies r.company_id
  filter_matches r f type = within_known f.types r.program_type
  filter_matches r f season = within f.seasons r.season
  filter_matches r f year = within f.years (year_value r.target_year)
  filter_matches r f window = in_window f.window_days r.forecastable r.days_until
  filter_matches r f confidence = within f.confidence (stored_band r.forecastable r.confidence)
  filter_matches r f cycles = enough_cycles f.min_cycles r.forecastable r.history_count
  filter_matches r f precision =
      precision_matches f.precision r.exact_events r.bounded_events r.observed_events
  filter_matches r f location = within f.locations r.location
  filter_matches r f listed = not f.listed_now || r.listed_now
  filter_matches r f watched = not f.watched_only || r.followed

  -- `FILTER_KEYS.every((key) => matches[key])`
  unfoldable pub matches_all : RoleFacts → DashboardFilters → Bool
  matches_all r f = all (filter_matches r f) filter_keys
