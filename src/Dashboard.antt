-- ===== src/Dashboard.antt =====
-- The roles view: apps/web/lib/dashboard-query.ts. A role is listed from the facts that the read
-- path returns; confidences are in hundredths, as the database stores them.
pub mod Matching
pub mod Order
pub mod View
pub mod Bands
pub mod Query
pub mod Relax
mod Examples
use stseen.Prelude.{
  ℕ, Bool, true, false, List, [], ◌∷◌, Option, none, some, Text, codes, if◌then◌else◌, ◌==◌,
}
use stseen.Prelude.Int.{ℤ}

abbrev pub dashboard_page_size : ℕ
dashboard_page_size = 20

abbrev pub roles_per_company : ℕ
roles_per_company = 3

-- `FilterKey`
pub data FilterKey : Type 0 where
  query discipline company type season year window confidence cycles precision location listed
        watched :
      FilterKey

abbrev pub filter_keys : List FilterKey
filter_keys =
    query ∷ discipline ∷ company ∷ type ∷ season ∷ year ∷ window ∷ confidence ∷ cycles ∷ precision
    ∷ location ∷ listed ∷ watched ∷ []

abbrev rank : FilterKey → ℕ
rank query = 0
rank discipline = 1
rank company = 2
rank type = 3
rank season = 4
rank year = 5
rank window = 6
rank confidence = 7
rank cycles = 8
rank precision = 9
rank location = 10
rank listed = 11
rank watched = 12

-- `===` on filter keys.
abbrev pub same_key : FilterKey → FilterKey → Bool
same_key j k = rank j == rank k

-- `Precision`, a filter on the dates that a role's openings carry.
pub data Precision : Type 0 where
  exact exact_or_bounded observed_only no_opening : Precision

-- `DashboardSort`
pub data DashboardSort : Type 0 where
  by_window by_confidence by_evidence by_company : DashboardSort

-- `DashboardFilters`
pub record DashboardFilters : Type 0 where
  pub query : Text
  pub disciplines : List Text
  pub companies : List Text
  pub types : List Text
  pub seasons : List Text
  pub years : List Text
  pub window_days : Option ℕ
  pub confidence : List Text
  pub min_cycles : Option ℕ
  pub precision : Option Precision
  pub locations : List Text
  pub listed_now : Bool
  pub watched_only : Bool
  pub sort : DashboardSort
  pub page : ℕ

-- What `DashboardListItem` takes over from `DashboardRoleFacts`.
pub record ListedFacts : Type 0 where
  pub id : Text
  pub company_id : Text
  pub company : Text
  pub role : Text
  pub discipline : Option Text
  pub program_type : Option Text
  pub season : Text
  pub target_year : Option ℕ
  pub location : Text
  pub listed_now : Bool
  pub followed : Bool
  pub forecastable : Bool
  pub history_count : Option ℕ
  pub exact_events : ℕ
  pub bounded_events : ℕ
  pub observed_events : ℕ

-- `DashboardRoleFacts`
pub record RoleFacts : Type 0 where
  pub facts : ListedFacts
  pub open facts use *
  pub confidence : Option ℕ
  pub days_until : Option ℤ
  pub search_text : Text

-- `CLEARED`: the filters with one of them taken off.
unfoldable pub cleared : FilterKey → DashboardFilters → DashboardFilters
cleared query f = record f { query = [] }
cleared discipline f = record f { disciplines = [] }
cleared company f = record f { companies = [] }
cleared type f = record f { types = [] }
cleared season f = record f { seasons = [] }
cleared year f = record f { years = [] }
cleared window f = record f { window_days = none }
cleared confidence f = record f { confidence = [] }
cleared cycles f = record f { min_cycles = none }
cleared precision f = record f { precision = none }
cleared location f = record f { locations = [] }
cleared listed f = record f { listed_now = false }
cleared watched f = record f { watched_only = false }

-- Zero lists every role.
unfoldable pub per_company_limit : DashboardFilters → ℕ
per_company_limit f = elim f.companies [ [] ↦ roles_per_company | c ∷ cs ↦ 0 ]
