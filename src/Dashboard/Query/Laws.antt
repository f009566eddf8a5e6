-- ===== src/Dashboard/Query/Laws.antt =====
-- What a URL's filters are, whatever the URL.
use native.Mathlib.Nat.{le_trans}
use stseen.Dashboard.{DashboardFilters, cleared}
use stseen.Dashboard.Query.{
  SearchParams, all_values, allowed, disciplines, program_types, seasons, confidence_bands, windows,
  cycle_minimums, is_year, is_uuid, clamp_page, if_listed, first, and_then, parse_dashboard_filters,
}
use stseen.Prelude.{
  ℕ, ◌≤◌, ◌≡◌, refl, Bool, true, List, [], ◌∷◌, Option, none, some, length, map, filter, all, any,
  Text, text_eq, arith, length-take-le, length-filter, count-le-length, ◌==◌, Bool-cases, inl, inr,
  codes,
}
use stseen.Prelude.Int.{ℤ}

pub length-filter-le : (p : Text → Bool) (xs : List Text) → length (filter p xs) ≤ length xs
length-filter-le p xs = omega (arith, length-filter p xs, count-le-length p xs)

pub all-filter : (p : Text → Bool) (xs : List Text) → all p (filter p xs) ≡ true
all-filter p [] = refl
all-filter p (x ∷ xs) = elim (Bool-cases (p x)) [
  | inl e ↦ rw e (rw e (all-filter p xs))
  | inr e ↦ rw e (all-filter p xs)
]

pub length-all_values : (params : SearchParams) (key : Text) → length (all_values params key) ≤ 20
unfolding all_values
length-all_values params key = length-take-le 20 _

-- A list of at most twenty of the table's values.
abbrev pub IsChoice : List Text → List Text → Type 0
IsChoice table values =
    (all (λ value. any (text_eq value) table) values ≡ true) × (length values ≤ 20)

checked_values :
    (params : SearchParams) (key : Text) (p : Text → Bool)
    → (all p (filter p (all_values params key)) ≡ true)
      × (length (filter p (all_values params key)) ≤ 20)
checked_values params key p = (
  all-filter p (all_values params key),
  le_trans (length-filter-le p (all_values params key)) (length-all_values params key),
)

allowed-IsChoice :
    (params : SearchParams) (key : Text) (table : List Text)
    → IsChoice table (allowed table (all_values params key))
allowed-IsChoice params key table = checked_values params key λ value. any (text_eq value) table

abbrev pub IsOneOf : List ℕ → Option ℕ → Type 0
IsOneOf table none = Unit
IsOneOf table (some n) = any (λ m. m == n) table ≡ true

if_listed-IsOneOf : (table : List ℕ) (o : Option ℕ) → IsOneOf table (if_listed table o)
if_listed-IsOneOf table none = tt
if_listed-IsOneOf table (some n) = elim (Bool-cases (any (λ m. m == n) table)) [
  | inl e ↦ rw e e
  | inr e ↦ rw e tt
]

clamp_page-bounds : (o : Option ℤ) → (1 ≤ clamp_page o) × (clamp_page o ≤ 10000)
clamp_page-bounds o = ground arith

-- The companies are at most twenty UUIDs, put in small letters.
abbrev pub AreCompanies : (Text → Text) → List Text → Type 0
AreCompanies lower companies =
    (ids : List Text) × (companies ≡ map lower ids) × (all is_uuid ids ≡ true) × (length ids ≤ 20)

-- Filters that the list can be asked for.
abbrev pub IsParsed : (Text → Text) → DashboardFilters → Type 0
IsParsed lower f =
    (f.locations ≡ [])
    × (length f.query ≤ 200)
    × IsChoice disciplines f.disciplines
    × IsChoice program_types f.types
    × IsChoice seasons f.seasons
    × IsChoice confidence_bands f.confidence
    × ((all is_year f.years ≡ true) × (length f.years ≤ 20))
    × IsOneOf windows f.window_days
    × IsOneOf cycle_minimums f.min_cycles
    × (1 ≤ f.page)
    × (f.page ≤ 10000)
    × AreCompanies lower f.companies

-- Whatever the URL, its filters name only values of the tables of disciplines, types, seasons and
-- confidence, years and companies' UUIDs in small letters, at most twenty of each, a number of days
-- and of cycles of their tables, no location, at most 200 code units to search for, and a page from
-- 1 to 10000.
pub parse_dashboard_filters-IsParsed :
    (number : Text → Option ℕ) (parse_int : Text → Option ℤ) (lower : Text → Text)
    (params : SearchParams)
    → IsParsed lower (parse_dashboard_filters number parse_int lower params)
unfolding parse_dashboard_filters cleared
parse_dashboard_filters-IsParsed number parse_int lower params = (
  refl,
  length-take-le 200 _,
  allowed-IsChoice params (codes "discipline") disciplines,
  allowed-IsChoice params (codes "type") program_types,
  allowed-IsChoice params (codes "season") seasons,
  allowed-IsChoice params (codes "confidence") confidence_bands,
  checked_values params (codes "year") is_year,
  if_listed-IsOneOf windows (and_then (first params (codes "window")) number),
  if_listed-IsOneOf cycle_minimums (and_then (first params (codes "cycles")) number),
  (clamp_page-bounds _).0,
  (clamp_page-bounds _).1,
  (
    filter is_uuid (all_values params (codes "company")),
    refl,
    (checked_values params (codes "company") is_uuid).0,
    (checked_values params (codes "company") is_uuid).1,
  ),
)
