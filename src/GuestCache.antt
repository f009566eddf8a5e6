-- ===== src/GuestCache.antt =====
-- The edge cache of the guests' pages: which requests it serves, under which key, and what it does
-- with a page (apps/web/cloudflare/guest-cache.ts, apps/web/lib/just-opened-filters.ts,
-- apps/web/lib/role-page-params.ts).
pub mod Serve
pub mod Canonical
pub mod Trim
pub mod View
pub mod Sound
pub mod Headers
pub mod Laws
mod Examples
use stseen.Dashboard.{DashboardFilters}
use stseen.Dashboard.Query.{SearchParams, dedupe, hex_groups, parse_dashboard_filters}
use stseen.Dashboard.Query.Href.{dashboard_href}
use stseen.Onboarding.{default_dashboard_filters}
use stseen.Prelude.{
  ℕ, zero, suc, Bool, true, false, not, ◌&&◌, ◌||◌, List, [], ◌∷◌, ◌++◌, Option, none, some, map,
  any, all, filter, head?, reverse, if◌then◌else◌, ltb, leb, ◌==◌, drop, Text, text_eq, text_lt,
  starts_with, includes, codes,
}
use stseen.Prelude.Int.{ℤ, pos, negsuc}
use stseen.Prelude.Sort.{sort}
use stseen.Prelude.Words.{decimal}
use stseen.Worker.{has_session_cookie, dashboard_params, has_key}

-- What the cache reads of a request. The query is the list of `searchParams`.
pub record PageRequest : Type 0 where
  pub method : Text
  pub pathname : Text
  pub query : List (Text × Text)
  pub cookie : Option Text
  pub accept : Option Text
  pub rsc : Bool

-- `Array.prototype.sort` without a comparator, on strings.
abbrev text_order : Text → Text → ℤ
text_order a b = if text_lt a b then negsuc 0 else if text_lt b a then pos 1 else pos 0

-- `[...new Set(value)].sort()`
unfoldable pub canonical_list : List Text → List Text
unfolding dedupe sort
canonical_list values = sort text_order (dedupe [] values)

-- The filters with each list of values in the one order.
unfoldable pub canonical_filters : DashboardFilters → DashboardFilters
unfolding canonical_list
canonical_filters f = record f {
  disciplines = canonical_list f.disciplines;
  companies = canonical_list f.companies;
  types = canonical_list f.types;
  seasons = canonical_list f.seasons;
  years = canonical_list f.years;
  confidence = canonical_list f.confidence;
  locations = canonical_list f.locations;
}

-- The values of a parameter, in the order of the query. It is read at the filters' keys alone, which
-- no prototype has, also not the array that a parameter `__proto__` makes the prototype.
abbrev pub params_of : List (Text × Text) → SearchParams
params_of [] key = []
params_of (p ∷ query) key =
    if text_eq p.0 key then p.1 ∷ params_of query key else params_of query key

-- `Object.fromEntries(url.searchParams)[key]`: the last value.
abbrev last_value : List Text → Option Text
last_value values = head? (reverse values)

abbrev positive_or_one : Option ℤ → ℕ
positive_or_one none = 1
positive_or_one (some (negsuc n)) = 1
positive_or_one (some (pos n)) = if ltb 0 n then n else 1

abbrev or_nothing : Option Text → Text
or_nothing none = []
or_nothing (some t) = t

-- `provenancePageFrom` of the value of the parameter, with the engine's `Number.parseInt`.
unfoldable pub provenance_page_from : (Text → Option ℤ) → Option Text → ℕ
provenance_page_from parse_int value = positive_or_one (parse_int (or_nothing value))

abbrev is_small_hex : Text → Bool
is_small_hex = all λ c. not (leb 65 c && leb c 70)

-- `ROLE_PAGE.test`, in small letters.
unfoldable pub is_role_page : Text → Bool
unfolding hex_groups
is_role_page path =
    starts_with path (codes "/roles/")
    && hex_groups (4 ∷ 4 ∷ 4 ∷ 12 ∷ []) 8 (drop 7 path)
    && is_small_hex (drop 7 path)

-- A canonical path: the path and the parameters behind it.
pub record CachePath : Type 0 where
  pub path : Text
  pub params : List (Text × Text)

abbrev html_of : Option Text → Bool
html_of none = includes [] (codes "text/html")
html_of (some accept) = includes accept (codes "text/html")

module _ (number : Text → Option ℕ) (parse_int : Text → Option ℤ) (lower : Text → Text) where
  -- `justOpenedFilters`
  unfoldable pub just_opened_filters : SearchParams → DashboardFilters
  unfolding parse_dashboard_filters
  just_opened_filters params =
      let parsed = parse_dashboard_filters number parse_int lower params in
      record default_dashboard_filters {
        query = parsed.query;
        disciplines = parsed.disciplines;
        types = parsed.types;
        seasons = parsed.seasons;
        companies = parsed.companies;
        locations = parsed.locations;
        page = parsed.page;
      }

  -- The key of the roles view's pages, of the values of the parameters.
  unfoldable pub roles_key : SearchParams → List (Text × Text)
  unfolding canonical_filters dashboard_href parse_dashboard_filters
  roles_key params =
      dashboard_href true
        (canonical_filters (parse_dashboard_filters number parse_int lower params))

  unfoldable pub opened_key : SearchParams → List (Text × Text)
  unfolding canonical_filters dashboard_href just_opened_filters
  opened_key params = dashboard_href true (canonical_filters (just_opened_filters params))

  abbrev role_key : Text → List Text → CachePath
  role_key path values =
      let evidence = provenance_page_from parse_int (last_value values) in
      record {
        path = path;
        params = if ltb 1 evidence then (codes "evidence", decimal evidence) ∷ [] else [];
      }

  abbrev path_of : Text → List (Text × Text) → Option CachePath
  path_of path query =
      if text_eq path (codes "/")
      then (if any (λ p. any (text_eq p.0) dashboard_params) query
          then none
          else some record { path = codes "/"; params = [] })
      else if text_eq path (codes "/roles")
      then some record { path = codes "/roles"; params = roles_key (params_of query) }
      else if text_eq path (codes "/methodology")
      then some record { path = path; params = [] }
      else if text_eq path (codes "/opened")
      then some record { path = codes "/opened"; params = opened_key (params_of query) }
      else if is_role_page path
      then some (role_key path (params_of query (codes "evidence")))
      else none

  -- `guestCachePath`
  unfoldable pub guest_cache_path : PageRequest → Option CachePath
  unfolding roles_key opened_key is_role_page provenance_page_from
  guest_cache_path r =
      if not (text_eq r.method (codes "GET")) || has_session_cookie r.cookie
      then none
      else if r.rsc || has_key (codes "_rsc") r.query
      then none
      else if not (html_of r.accept)
      then none
      else path_of r.pathname r.query
