-- ===== src/Dashboard/Query/RoundTrip.antt =====
-- The link to the roles view, read back: the filters that it states are the filters that the page
-- then has.
use stseen.Dashboard.Query.Link.{
  values_of, grouped, one_if, number_values, precision_values, groups, values_of-href,
  all_values-href, one_if-IsSetOf, number_values-IsSetOf, precision_values-IsSetOf,
  sort_value-IsPlain,
}
use stseen.Dashboard.{
  Precision, exact, exact_or_bounded, observed_only, no_opening, DashboardSort, by_window,
  by_confidence, by_evidence, by_company, DashboardFilters, cleared,
}
use stseen.Dashboard.Query.{
  all_values, allowed, first_found, precision_value, sort_value, or_window, if_listed, and_then,
  is_one, or_text, clamp_page, is_uuid, is_year, is_text, dedupe, disciplines, program_types,
  seasons, confidence_bands, windows, cycle_minimums, parse_dashboard_filters,
}
use stseen.Dashboard.Query.Href.{dashboard_href, is_by_window}
use stseen.Dashboard.Query.Laws.{IsChoice, IsOneOf}
use stseen.Dashboard.Query.Plain.{
  is_plain_char, IsPlain, IsSetOf, decimal-IsPlain, is_uuid-IsPlain, is_year-IsPlain,
  of_table-IsPlain,
}
use stseen.Prelude.{
  ℕ, suc, ◌≤◌, ◌==◌, ◌≡◌, refl, sym, Bool, true, false, not, ◌&&◌, List, [], ◌∷◌, ◌++◌, Option,
  none, some, map, ltb, all, any, All, filter, length, head?, take, take_of_length-le, Text,
  text_eq, codes, arith, Bool-cases, inl, inr,
}
use stseen.Prelude.Int.{ℤ, pos}
use stseen.Prelude.Words.{trim, decimal, decimal_from, is_space}

-- Different values of a table, at most twenty.
abbrev pub IsChosen : List Text → List Text → Type 0
IsChosen table vs = IsChoice table vs × (dedupe [] vs ≡ vs)

all_of_table-IsPlain :
    (table vs : List Text)
    → All IsPlain table
    → all (λ v. any (text_eq v) table) vs ≡ true
    → All IsPlain vs
all_of_table-IsPlain table [] h k = tt
all_of_table-IsPlain table (v ∷ vs) h k =
    (of_table-IsPlain table v h (ground arith), all_of_table-IsPlain table vs h (ground arith))

IsChosen-IsSetOf : (table vs : List Text) → All IsPlain table → IsChosen table vs → IsSetOf vs
IsChosen-IsSetOf table vs h k = (all_of_table-IsPlain table vs h k.0.0, k.1, k.0.1)

filter_of_all : (p : Text → Bool) (vs : List Text) → all p vs ≡ true → filter p vs ≡ vs
filter_of_all p [] h = refl
filter_of_all p (v ∷ vs) h = ground (arith, filter_of_all p vs)

of_all-IsPlain :
    (p : Text → Bool) (vs : List Text)
    → ((v : Text) → p v ≡ true → IsPlain v)
    → all p vs ≡ true
    → All IsPlain vs
of_all-IsPlain p [] f h = tt
of_all-IsPlain p (v ∷ vs) f h = (f v (ground arith), of_all-IsPlain p vs f (ground arith))

table-IsPlain :
    (table : List Text)
    → all (λ v. all is_plain_char v && is_text v) table ≡ true
    → All IsPlain table
table-IsPlain table h =
    of_all-IsPlain (λ v. all is_plain_char v && is_text v) table
      (λ v k. (ground arith, ground arith)) h

-- Filters that a link states whole: the text trimmed and at most 200 code units, different values
-- of the tables, years and small-letter UUIDs of companies, at most twenty of each, no location,
-- and a page from 1 to 10000.
abbrev pub IsCanonical : (Text → Text) → DashboardFilters → Type 0
IsCanonical lower f =
    ((trim f.query ≡ f.query) × (length f.query ≤ 200))
    × IsChosen disciplines f.disciplines
    × ((all is_uuid f.companies ≡ true)
        × (map lower f.companies ≡ f.companies)
        × (dedupe [] f.companies ≡ f.companies)
        × (length f.companies ≤ 20))
    × IsChosen program_types f.types
    × IsChosen seasons f.seasons
    × ((all is_year f.years ≡ true) × (dedupe [] f.years ≡ f.years) × (length f.years ≤ 20))
    × IsOneOf windows f.window_days
    × IsChosen confidence_bands f.confidence
    × IsOneOf cycle_minimums f.min_cycles
    × (f.locations ≡ [])
    × ((1 ≤ f.page) × (f.page ≤ 10000))

query_kept :
    (q : Text) → length q ≤ 200 → take 200 (or_text (head? (one_if (is_text q) q ++ [])) []) ≡ q
unfolding one_if
query_kept [] h = refl
query_kept (c ∷ q) h = take_of_length-le 200 (c ∷ q) h

flag_kept : (b : Bool) → is_one (head? (one_if b (codes "1"))) ≡ b
unfolding one_if
flag_kept true = refl
flag_kept false = refl

precision_kept :
    (o : Option Precision)
    → first_found precision_value
        (exact ∷ exact_or_bounded ∷ observed_only ∷ no_opening ∷ [])
        (precision_values o)
      ≡ o
unfolding precision_values
precision_kept none = refl
precision_kept (some exact) = refl
precision_kept (some exact_or_bounded) = refl
precision_kept (some observed_only) = refl
precision_kept (some no_opening) = refl

sort_kept :
    (sort : DashboardSort)
    → or_window (
        first_found sort_value
          (by_window ∷ by_confidence ∷ by_evidence ∷ by_company ∷ [])
          (one_if (not (is_by_window sort)) (sort_value sort)))
      ≡ sort
unfolding one_if
sort_kept by_window = refl
sort_kept by_confidence = refl
sort_kept by_evidence = refl
sort_kept by_company = refl

ltb_of_le : (m n : ℕ) → suc m ≤ n → ltb m n ≡ true
ltb_of_le m n h = ground arith

module _ (number : Text → Option ℕ)
    (number-decimal : (n : ℕ) → n ≤ 10000 → number (decimal n) ≡ some n) where
  number_kept :
      (table : List ℕ) (o : Option ℕ)
      → ((n : ℕ) → any (λ m. m == n) table ≡ true → (1 ≤ n) × (n ≤ 10000))
      → IsOneOf table o
      → if_listed table (and_then (head? (number_values o)) number) ≡ o
  unfolding number_values one_if
  number_kept table none bounds h = refl
  number_kept table (some n) bounds h =
      rw (ltb_of_le 0 n (bounds n h).0, number-decimal n (bounds n h).1, h) refl

module _ (parse_int : Text → Option ℤ)
    (parse_int-decimal : (n : ℕ) → n ≤ 10000 → parse_int (decimal n) ≡ some (pos n)) where
  parse_one : parse_int (codes "1") ≡ some (pos 1)
  unfolding decimal decimal_from
  parse_one = parse_int-decimal 1 (omega arith)

  page_kept :
      (page : ℕ)
      → 1 ≤ page
      → page ≤ 10000
      → clamp_page (parse_int (or_text (head? (one_if (ltb 1 page) (decimal page))) (codes "1")))
        ≡ page
  unfolding one_if
  page_kept page h k = elim (Bool-cases (ltb 1 page)) [
    | inl e ↦ rw (e, parse_int-decimal page k) (ground arith)
    | inr e ↦ rw (e, parse_one) (ground arith)
  ]

module _ (f : DashboardFilters) where
  table_kept :
      (key : Text) (table vs : List Text)
      → All IsPlain table
      → IsChosen table vs
      → grouped (groups f) key ≡ vs ++ []
      → allowed table (all_values (values_of (dashboard_href true f)) key) ≡ vs
  table_kept key table vs plain h e =
      rw (all_values-href f key vs e (IsChosen-IsSetOf table vs plain h))
        (filter_of_all (λ value. any (text_eq value) table) vs h.0.0)

  checked_kept :
      (key : Text) (p : Text → Bool) (vs : List Text)
      → ((v : Text) → p v ≡ true → IsPlain v)
      → (all p vs ≡ true) × (dedupe [] vs ≡ vs) × (length vs ≤ 20)
      → grouped (groups f) key ≡ vs ++ []
      → filter p (all_values (values_of (dashboard_href true f)) key) ≡ vs
  checked_kept key p vs plain h e =
      rw (all_values-href f key vs e (of_all-IsPlain p vs plain h.0, h.1, h.2))
        (filter_of_all p vs h.0)

-- Canonical filters are read back from the link that states them and their page: filters with the
-- text trimmed and at most 200 code units, different values of the tables, years and small-letter
-- UUIDs of companies, at most twenty of each, no location, and a page from 1 to 10000. `number`
-- and `parse_int` read the numerals up to 10000.
pub parse_dashboard_filters-dashboard_href :
    (number : Text → Option ℕ) (parse_int : Text → Option ℤ) (lower : Text → Text)
    → ((n : ℕ) → n ≤ 10000 → number (decimal n) ≡ some n)
    → ((n : ℕ) → n ≤ 10000 → parse_int (decimal n) ≡ some (pos n))
    → (f : DashboardFilters) → IsCanonical lower f
    → parse_dashboard_filters number parse_int lower (values_of (dashboard_href true f)) ≡ f
unfolding parse_dashboard_filters cleared grouped groups is_space
parse_dashboard_filters-dashboard_href number parse_int lower h k f
      (query, disc, comp, types, seas, years, window, conf, cycles, locs, page) =
    rw
      (
        values_of-href f (codes "q"),
        query.0,
        query_kept f.query query.1,
        table_kept f (codes "discipline") disciplines f.disciplines (table-IsPlain disciplines refl)
            disc refl,
        checked_kept f (codes "company") is_uuid f.companies is_uuid-IsPlain
            (comp.0, comp.2, comp.3) refl,
        comp.1,
        table_kept f (codes "type") program_types f.types (table-IsPlain program_types refl) types
            refl,
        table_kept f (codes "season") seasons f.seasons (table-IsPlain seasons refl) seas refl,
        checked_kept f (codes "year") is_year f.years is_year-IsPlain years refl,
        table_kept f (codes "confidence") confidence_bands f.confidence
            (table-IsPlain confidence_bands refl) conf refl,
        all_values-href f (codes "window") (number_values f.window_days) refl
            (number_values-IsSetOf f.window_days),
        all_values-href f (codes "cycles") (number_values f.min_cycles) refl
            (number_values-IsSetOf f.min_cycles),
        all_values-href f (codes "precision") (precision_values f.precision) refl
            (precision_values-IsSetOf f.precision),
        all_values-href f (codes "listed") (one_if f.listed_now (codes "1")) refl
            (one_if-IsSetOf f.listed_now (codes "1") (refl, refl)),
        all_values-href f (codes "watched") (one_if f.watched_only (codes "1")) refl
            (one_if-IsSetOf f.watched_only (codes "1") (refl, refl)),
        all_values-href f (codes "sort") (one_if (not (is_by_window f.sort)) (sort_value f.sort))
            refl
            (one_if-IsSetOf (not (is_by_window f.sort)) (sort_value f.sort)
              (sort_value-IsPlain f.sort)),
        all_values-href f (codes "page") (one_if (ltb 1 f.page) (decimal f.page)) refl
            (one_if-IsSetOf (ltb 1 f.page) (decimal f.page) (decimal-IsPlain f.page)),
        number_kept number h windows f.window_days (λ n e. (ground arith, ground arith)) window,
        number_kept number h cycle_minimums f.min_cycles (λ n e. (ground arith, ground arith))
            cycles,
        precision_kept f.precision,
        flag_kept f.listed_now,
        flag_kept f.watched_only,
        sort_kept f.sort,
        page_kept parse_int k f.page page.0 page.1,
        sym locs,
      )
      refl
