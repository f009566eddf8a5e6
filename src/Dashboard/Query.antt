-- ===== src/Dashboard/Query.antt =====
-- The query of the roles view: the filters that a URL states.
pub mod Href
pub mod Dedupe
pub mod Plain
pub mod Link
pub mod RoundTrip
mod Examples
pub mod Laws
use stseen.Dashboard.{
  FilterKey, filter_keys, Precision, exact, exact_or_bounded, observed_only, no_opening,
  DashboardSort, by_window, by_confidence, by_evidence, by_company, DashboardFilters, cleared,
}
use stseen.Dashboard.Matching.{is_empty}
use stseen.Dashboard.View.{DashboardSummary, Exclusion}
use stseen.Prelude.{
  ℕ, zero, suc, ◌+◌, ◌-◌, ◌*◌, min, max, Bool, true, false, not, ◌&&◌, ◌||◌, List, [], ◌∷◌, ◌++◌,
  Option, none, some, map, if◌then◌else◌, ltb, leb, ◌==◌, take, filter, any, head?, Text, codes,
  text_eq,
}
use stseen.Prelude.Int.{ℤ, pos, negsuc}
use stseen.Prelude.Words.{trim, split_on, decimal}

-- The values of the tables, without their labels.
abbrev pub disciplines : List Text
disciplines =
    codes "software_engineering"
    ∷ codes "machine_learning"
    ∷ codes "infrastructure"
    ∷ codes "security"
    ∷ codes "hardware"
    ∷ codes "robotics"
    ∷ codes "data"
    ∷ codes "quantitative"
    ∷ codes "product_management"
    ∷ codes "design"
    ∷ codes "mechanical_engineering"
    ∷ codes "aerospace_engineering"
    ∷ codes "manufacturing_engineering"
    ∷ codes "materials_engineering"
    ∷ codes "chemical_engineering"
    ∷ codes "civil_engineering"
    ∷ codes "biomedical_engineering"
    ∷ []

abbrev pub program_types : List Text
program_types =
    codes "internship"
    ∷ codes "co_op"
    ∷ codes "new_grad"
    ∷ codes "rotational"
    ∷ codes "graduate_program"
    ∷ codes "apprenticeship"
    ∷ []

abbrev pub seasons : List Text
seasons =
    codes "summer"
    ∷ codes "fall"
    ∷ codes "winter"
    ∷ codes "spring"
    ∷ codes "year_round"
    ∷ codes "unknown"
    ∷ []

abbrev pub confidence_bands : List Text
confidence_bands = codes "strong" ∷ codes "moderate" ∷ codes "limited" ∷ codes "none" ∷ []

abbrev pub windows : List ℕ
windows = 30 ∷ 60 ∷ 90 ∷ []

abbrev pub cycle_minimums : List ℕ
cycle_minimums = 2 ∷ 3 ∷ []

abbrev pub max_values : ℕ
max_values = 20

-- The parameters of a URL: the values under each key, none where it is absent.
abbrev pub SearchParams : Type 0
SearchParams = Text → List Text

unfoldable pub concat : List (List Text) → List Text
concat [] = []
concat (xs ∷ rest) = xs ++ concat rest

-- `[...new Set(values)]`, with the values that are set already.
unfoldable pub dedupe : List Text → List Text → List Text
dedupe set [] = []
dedupe set (v ∷ values) =
    let kept = dedupe (v ∷ set) values in
    let skipped = dedupe set values in if any (text_eq v) set then skipped else v ∷ kept

abbrev pub is_text : Text → Bool
is_text t = not (text_eq t [])

-- `all(params, key)`
unfoldable pub all_values : SearchParams → Text → List Text
unfolding concat dedupe
all_values params key =
    take max_values
      (dedupe [] (filter is_text (map trim (concat (map (split_on 44) (params key))))))

abbrev pub first : SearchParams → Text → Option Text
first params key = head? (all_values params key)

-- `allowed(values, table)`
abbrev pub allowed : List Text → List Text → List Text
allowed table = filter (λ value. any (text_eq value) table)

abbrev is_digit : ℕ → Bool
is_digit c = leb 48 c && leb c 57

abbrev pub is_hex : ℕ → Bool
is_hex c = is_digit c || leb 97 c && leb c 102 || leb 65 c && leb c 70

-- A number of hexadecimal digits, a dash, and what follows.
unfoldable pub hex_groups : List ℕ → ℕ → Text → Bool
hex_groups groups zero [] = is_nil groups
  where
    is_nil : List ℕ → Bool
    is_nil [] = true
    is_nil (n ∷ ns) = false
hex_groups [] zero (c ∷ t) = false
hex_groups (n ∷ groups) zero (c ∷ t) = let rest = hex_groups groups n t in c == 45 && rest
hex_groups groups (suc n) [] = false
hex_groups groups (suc n) (c ∷ t) = let rest = hex_groups groups n t in is_hex c && rest

-- `UUID.test`
unfoldable pub is_uuid : Text → Bool
unfolding hex_groups
is_uuid t = hex_groups (4 ∷ 4 ∷ 4 ∷ 12 ∷ []) 8 t

-- `^20[2-9]\d$`, or a year that is not stated.
abbrev pub is_year : Text → Bool
is_year (a ∷ b ∷ c ∷ d ∷ []) = a == 50 && b == 48 && leb 50 c && leb c 57 && is_digit d
is_year t = text_eq t (codes "unstated")

abbrev pub precision_value : Precision → Text
precision_value exact = codes "exact"
precision_value exact_or_bounded = codes "exact_or_bounded"
precision_value observed_only = codes "observed_only"
precision_value no_opening = codes "none"

abbrev pub find_value {ℓ} : {A : Type ℓ} → (A → Text) → List A → Text → Option A
find_value value_of [] value = none
find_value value_of (a ∷ rest) value =
    if text_eq (value_of a) value then some a else find_value value_of rest value

abbrev first_found {ℓ} : {A : Type ℓ} → (A → Text) → List A → List Text → Option A
first_found value_of table [] = none
first_found value_of table (v ∷ vs) = elim (find_value value_of table v) [
  | none ↦ first_found value_of table vs
  | some a ↦ some a
]

abbrev pub sort_value : DashboardSort → Text
sort_value by_window = codes "window"
sort_value by_confidence = codes "confidence"
sort_value by_evidence = codes "evidence"
sort_value by_company = codes "company"

abbrev or_window : Option DashboardSort → DashboardSort
or_window none = by_window
or_window (some sort) = sort

abbrev if_listed : List ℕ → Option ℕ → Option ℕ
if_listed table none = none
if_listed table (some n) = if any (λ m. m == n) table then some n else none

abbrev pub and_then {ℓ} : {A : Type ℓ} → Option Text → (Text → Option A) → Option A
and_then none f = none
and_then (some t) f = f t

-- `Number.isFinite(page) ? Math.min(10_000, Math.max(1, page)) : 1`
abbrev pub clamp_page : Option ℤ → ℕ
clamp_page none = 1
clamp_page (some (negsuc n)) = 1
clamp_page (some (pos n)) = min 10000 (max 1 n)

abbrev or_text : Option Text → Text → Text
or_text none t = t
or_text (some s) t = s

abbrev is_one : Option Text → Bool
is_one none = false
is_one (some t) = text_eq t (codes "1")

-- `parseDashboardFilters`. The engine's parts: `number` is `Number` where it is a whole number of at
-- least zero, `parse_int` is `Number.parseInt(text, 10)` where it is finite, and `lower` is
-- `toLowerCase`.
unfoldable pub parse_dashboard_filters :
    (Text → Option ℕ) → (Text → Option ℤ) → (Text → Text) → SearchParams → DashboardFilters
parse_dashboard_filters number parse_int lower params = cleared FilterKey.location record {
  query = take 200 (or_text (head? (params (codes "q"))) []);
  disciplines = allowed disciplines (all_values params (codes "discipline"));
  companies = map lower (filter is_uuid (all_values params (codes "company")));
  types = allowed program_types (all_values params (codes "type"));
  seasons = allowed seasons (all_values params (codes "season"));
  years = filter is_year (all_values params (codes "year"));
  window_days = if_listed windows (and_then (first params (codes "window")) number);
  confidence = allowed confidence_bands (all_values params (codes "confidence"));
  min_cycles = if_listed cycle_minimums (and_then (first params (codes "cycles")) number);
  precision =
      first_found precision_value (exact ∷ exact_or_bounded ∷ observed_only ∷ no_opening ∷ [])
        (all_values params (codes "precision"));
  locations = map (take 120) (all_values params (codes "location"));
  listed_now = is_one (first params (codes "listed"));
  watched_only = is_one (first params (codes "watched"));
  sort = or_window (
      first_found sort_value (by_window ∷ by_confidence ∷ by_evidence ∷ by_company ∷ [])
        (all_values params (codes "sort")));
  page = clamp_page (parse_int (or_text (first params (codes "page")) (codes "1")));
}
