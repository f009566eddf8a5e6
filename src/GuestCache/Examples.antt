-- ===== src/GuestCache/Examples.antt =====
-- Requests with and without a key, a page that is stored and served again, and the version's reader.
use stseen.Dashboard.{RoleFacts, cleared}
use stseen.Dashboard.Query.{
  SearchParams, all_values, concat, dedupe, is_uuid, hex_groups, parse_dashboard_filters,
}
use stseen.Dashboard.Query.Href.{dashboard_href}
use stseen.Dashboard.View.{build_dashboard_view}
use stseen.GuestCache.{
  PageRequest, params_of, canonical_list, canonical_filters, provenance_page_from, is_role_page,
  roles_key, guest_cache_path,
}
use stseen.GuestCache.Laws.{
  IsShareable, stored_header, hit_header, serve_guest_page-stores, serve_guest_page-again, AllFresh,
  memoized_version-AllFresh,
}
use stseen.GuestCache.Serve.{Response, header, serve_guest_page}
use stseen.GuestCache.Sound.{build_dashboard_view-roles_key}
use stseen.Prelude.{ℕ, ◌≡◌, ◌⊎◌, refl, ap, true, false, [], ◌∷◌, Option, none, some, Text, codes}
use stseen.Prelude.Int.{ℤ, pos}
use stseen.Prelude.Sort.{sort, insert}
use stseen.Prelude.Words.{
  trim, trim_start, is_space, decimal, decimal_from, digits_value, digits_value-decimal,
}
use stseen.Worker.{has_session_cookie}

abbrev number : Text → Option ℕ
number t = some (digits_value 0 t)

abbrev parse_int : Text → Option ℤ
parse_int t = some (pos (digits_value 0 t))

abbrev same : Text → Text
same t = t

-- Two links to the same view: their values stand in another order, one twice.
abbrev one_way : SearchParams
one_way = params_of ((codes "discipline", codes "data") ∷ (codes "discipline", codes "design") ∷ [])

abbrev other_way : SearchParams
other_way = params_of ((codes "discipline", codes "design,data,design") ∷ (codes "x", []) ∷ [])

abbrev visit : PageRequest
visit = record {
  method = codes "GET";
  pathname = codes "/roles";
  query = (codes "page", codes "2") ∷ (codes "q", codes " x ") ∷ [];
  cookie = none;
  accept = some (codes "text/html,*/*");
  rsc = false;
}

abbrev role_path : Text
role_path = codes "/roles/0f8fad5b-d9cb-469f-a165-70867728950e"

guest_cache_path_tests :
    (guest_cache_path number parse_int same visit
      ≡ some record {
        path = codes "/roles";
        params = (codes "q", codes "x") ∷ (codes "page", codes "2") ∷ [];
      })
    × (guest_cache_path number parse_int same
          (record visit { cookie = some (codes "a=b; sb-x-auth-token.0=c") })
        ≡ none)
    × (guest_cache_path number parse_int same (record visit { pathname = codes "/" }) ≡ none)
unfolding guest_cache_path roles_key canonical_filters canonical_list sort insert dashboard_href
    parse_dashboard_filters cleared all_values concat dedupe trim trim_start is_space decimal
    decimal_from is_uuid hex_groups has_session_cookie
guest_cache_path_tests = (refl, refl, refl)

-- The key names the last of two pages of the evidence; a page that reads the first of them is kept
-- under the key of the second.
evidence_test :
    (guest_cache_path number parse_int same (record visit {
      pathname = role_path;
      query = (codes "evidence", codes "1") ∷ (codes "evidence", codes "2") ∷ [];
    })
      ≡ some record { path = role_path; params = (codes "evidence", codes "2") ∷ [] })
    × (provenance_page_from parse_int (some (codes "1")) ≡ 1)
unfolding guest_cache_path is_role_page hex_groups provenance_page_from decimal decimal_from
    has_session_cookie
evidence_test = (refl, refl)

abbrev role : RoleFacts
role = record {
  facts = record {
    id = codes "r1";
    company_id = codes "c1";
    company = codes "Acme";
    role = codes "Designer";
    discipline = some (codes "design");
    program_type = none;
    season = codes "summer";
    target_year = none;
    location = codes "Remote";
    listed_now = true;
    followed = false;
    forecastable = false;
    history_count = none;
    exact_events = 1;
    bounded_events = 0;
    observed_events = 0;
  };
  confidence = none;
  days_until = none;
  search_text = codes "designer";
}

abbrev no_forecast : RoleFacts → Option ℕ
no_forecast r = none

build_dashboard_view-roles_key_example :
    build_dashboard_view same no_forecast no_forecast
      (role ∷ [])
      (parse_dashboard_filters number parse_int same one_way)
    ≡ build_dashboard_view same no_forecast no_forecast
        (role ∷ [])
        (parse_dashboard_filters number parse_int same other_way)
unfolding roles_key canonical_filters canonical_list sort insert dashboard_href
    parse_dashboard_filters cleared all_values concat dedupe trim trim_start is_space decimal
    decimal_from is_uuid hex_groups
build_dashboard_view-roles_key_example =
    build_dashboard_view-roles_key number parse_int same (λ n h. ap some (digits_value-decimal n))
      (λ n h. ap (λ m. some (pos m)) (digits_value-decimal n)) (λ t h. h) (λ t. refl) no_forecast
      no_forecast (role ∷ []) one_way other_way refl

-- A cache of one page.
abbrev match : ℕ → Option Response → Option Response
match key c = c

abbrev put : ℕ → Response → Option Response → Option Response
put key r c = some r

abbrev replace : Text → Text → Text → Text
replace old new body = new

abbrev page : Response
page = record {
  status = 200;
  headers = (codes "content-type", codes "text/html; charset=utf-8") ∷ [];
  body = codes "n1";
}

abbrev redirect : Response
redirect = record page { status = 302 }

page-IsShareable : IsShareable page
page-IsShareable = (refl, (refl, tt), refl)

serve_guest_page-stores_example :
    ((serve_guest_page match put replace 7 (codes "n1") page none).0 ≡ none)
    ⊎ (IsShareable page
        × (kept : Response) × ((serve_guest_page match put replace 7 (codes "n1") page none).0
            ≡ put 7 kept none)
        × (kept.status ≡ 200)
        × (kept.body ≡ page.body)
        × ((name : Text)
            → header name kept.headers
              ≡ stored_header (codes "n1") name (header name page.headers)))
serve_guest_page-stores_example = serve_guest_page-stores match put replace 7 (codes "n1") page none

serve_guest_page-again_example :
    let stored = (serve_guest_page match put replace 7 (codes "n1") page none).0 in
    let again = (serve_guest_page match put replace 7 (codes "n2") redirect stored).1 in
    ((serve_guest_page match put replace 7 (codes "n2") redirect stored).0 ≡ stored)
    × (again.status ≡ 200)
    × (again.body ≡ replace (codes "n1") (codes "n2") page.body)
    × ((name : Text) → header name again.headers ≡ hit_header name (header name page.headers))
serve_guest_page-again_example =
    serve_guest_page-again match put replace (λ key r c. refl) 7 110 (codes "1") (codes "n2") page
      redirect none refl page-IsShareable

memoized_version-AllFresh_example :
    AllFresh [] none ((0, some 4) ∷ (9999, some 5) ∷ (10000, none) ∷ (10001, some 6) ∷ [])
memoized_version-AllFresh_example =
    memoized_version-AllFresh ((0, some 4) ∷ (9999, some 5) ∷ (10000, none) ∷ (10001, some 6) ∷ [])
