-- ===== src/Dashboard/Query/Link.antt =====
-- The parameters of a link by key, and what the page reads under each of them.
use stseen.Dashboard.{
  Precision, exact, exact_or_bounded, observed_only, no_opening, DashboardSort, by_window,
  by_confidence, by_evidence, by_company, DashboardFilters,
}
use stseen.Dashboard.Query.{SearchParams, all_values, precision_value, sort_value, is_text, dedupe}
use stseen.Dashboard.Query.Href.{
  dashboard_href, pairs, pair_if, number_pair, precision_pair, is_by_window,
}
use stseen.Dashboard.Query.Plain.{IsPlain, IsSetOf, all_values-IsSetOf, decimal-IsPlain}
use mathlib.Core.List.{append-nil}
use stseen.Prelude.{
  ℕ, ◌≡◌, refl, sym, ap, ◌∙◌, Bool, true, false, not, List, [], ◌∷◌, ◌++◌, Option, none, some,
  if◌then◌else◌, ltb, Text, text_eq, codes, arith, Bool-cases, inl, inr,
}
use stseen.Prelude.Words.{trim, decimal, is_space}

-- `params.getAll(key)` of the parameters that a link states.
abbrev pub values_of : List (Text × Text) → SearchParams
values_of [] key = []
values_of (pair ∷ rest) key =
    if text_eq pair.0 key then pair.1 ∷ values_of rest key else values_of rest key

-- The parameters by key, as the link lists them.
ungroup : List (Text × List Text) → List (Text × Text)
ungroup [] = []
ungroup (group ∷ []) = pairs group.0 group.1
ungroup (group ∷ next ∷ rest) = pairs group.0 group.1 ++ ungroup (next ∷ rest)

unfoldable pub grouped : List (Text × List Text) → SearchParams
grouped [] key = []
grouped (group ∷ rest) key =
    if text_eq group.0 key then group.1 ++ grouped rest key else grouped rest key

values_of-pairs :
    (k : Text) (vs : List Text) (ps : List (Text × Text)) (key : Text)
    → values_of (pairs k vs ++ ps) key
      ≡ (if text_eq k key then vs ++ values_of ps key else values_of ps key)
values_of-pairs k [] ps key = elim (Bool-cases (text_eq k key)) [
  | inl e ↦ rw e refl
  | inr e ↦ rw e refl
]
values_of-pairs k (v ∷ vs) ps key = elim (Bool-cases (text_eq k key)) [
  | inl e ↦ rw (e, values_of-pairs k vs ps key, e) refl
  | inr e ↦ rw (e, values_of-pairs k vs ps key, e) refl
]

values_of-ungroup :
    (groups : List (Text × List Text)) (key : Text)
    → values_of (ungroup groups) key ≡ grouped groups key
unfolding ungroup grouped
values_of-ungroup [] key = refl
values_of-ungroup (group ∷ []) key =
    ap (λ ps. values_of ps key) (sym (append-nil (pairs group.0 group.1)))
    ∙ values_of-pairs group.0 group.1 [] key
values_of-ungroup (group ∷ next ∷ rest) key =
    rw
      (
        values_of-pairs group.0 group.1 (ungroup (next ∷ rest)) key,
        values_of-ungroup (next ∷ rest) key,
      )
      refl

unfoldable pub one_if : Bool → Text → List Text
one_if true v = v ∷ []
one_if false v = []

unfoldable pub number_values : Option ℕ → List Text
number_values none = []
number_values (some n) = one_if (ltb 0 n) (decimal n)

unfoldable pub precision_values : Option Precision → List Text
precision_values none = []
precision_values (some p) = precision_value p ∷ []

unfoldable pub groups : DashboardFilters → List (Text × List Text)
groups f =
    (codes "q", one_if (is_text (trim f.query)) (trim f.query))
    ∷ (codes "discipline", f.disciplines)
    ∷ (codes "company", f.companies)
    ∷ (codes "type", f.types)
    ∷ (codes "season", f.seasons)
    ∷ (codes "year", f.years)
    ∷ (codes "window", number_values f.window_days)
    ∷ (codes "confidence", f.confidence)
    ∷ (codes "cycles", number_values f.min_cycles)
    ∷ (codes "precision", precision_values f.precision)
    ∷ (codes "location", f.locations)
    ∷ (codes "listed", one_if f.listed_now (codes "1"))
    ∷ (codes "watched", one_if f.watched_only (codes "1"))
    ∷ (codes "sort", one_if (not (is_by_window f.sort)) (sort_value f.sort))
    ∷ (codes "page", one_if (ltb 1 f.page) (decimal f.page))
    ∷ []

pair_if-pairs : (b : Bool) (key v : Text) → pair_if b key v ≡ pairs key (one_if b v)
unfolding one_if
pair_if-pairs true key v = refl
pair_if-pairs false key v = refl

number_pair-pairs : (key : Text) (o : Option ℕ) → number_pair key o ≡ pairs key (number_values o)
unfolding number_values
number_pair-pairs key none = refl
number_pair-pairs key (some n) = pair_if-pairs (ltb 0 n) key (decimal n)

precision_pair-pairs :
    (o : Option Precision) → precision_pair o ≡ pairs (codes "precision") (precision_values o)
unfolding precision_values
precision_pair-pairs none = refl
precision_pair-pairs (some p) = refl

dashboard_href-ungroup : (f : DashboardFilters) → dashboard_href true f ≡ ungroup (groups f)
unfolding dashboard_href ungroup groups
dashboard_href-ungroup f =
    rw
      (
        pair_if-pairs (is_text (trim f.query)) (codes "q") (trim f.query),
        pair_if-pairs f.listed_now (codes "listed") (codes "1"),
        pair_if-pairs f.watched_only (codes "watched") (codes "1"),
        pair_if-pairs (not (is_by_window f.sort)) (codes "sort") (sort_value f.sort),
        pair_if-pairs (ltb 1 f.page) (codes "page") (decimal f.page),
        number_pair-pairs (codes "window") f.window_days,
        number_pair-pairs (codes "cycles") f.min_cycles,
        precision_pair-pairs f.precision,
      )
      refl

pub values_of-href :
    (f : DashboardFilters) (key : Text)
    → values_of (dashboard_href true f) key ≡ grouped (groups f) key
values_of-href f key =
    ap (λ ps. values_of ps key) (dashboard_href-ungroup f) ∙ values_of-ungroup (groups f) key

-- What the page reads under a key under which the link states the values of a set.
pub all_values-href :
    (f : DashboardFilters) (key : Text) (vs : List Text)
    → grouped (groups f) key ≡ vs ++ []
    → IsSetOf vs
    → all_values (values_of (dashboard_href true f)) key ≡ vs
all_values-href f key vs e h =
    all_values-IsSetOf (values_of (dashboard_href true f)) key vs h
      (values_of-href f key ∙ e ∙ append-nil vs)

pub one_if-IsSetOf : (b : Bool) (v : Text) → IsPlain v → IsSetOf (one_if b v)
unfolding one_if dedupe
one_if-IsSetOf true v h = ((h, tt), refl, omega arith)
one_if-IsSetOf false v h = (tt, refl, omega arith)

pub number_values-IsSetOf : (o : Option ℕ) → IsSetOf (number_values o)
unfolding number_values dedupe
number_values-IsSetOf none = (tt, refl, omega arith)
number_values-IsSetOf (some n) = one_if-IsSetOf (ltb 0 n) (decimal n) (decimal-IsPlain n)

pub precision_values-IsSetOf : (o : Option Precision) → IsSetOf (precision_values o)
unfolding precision_values dedupe is_space
precision_values-IsSetOf none = (tt, refl, omega arith)
precision_values-IsSetOf (some exact) = (((refl, refl), tt), refl, omega arith)
precision_values-IsSetOf (some exact_or_bounded) = (((refl, refl), tt), refl, omega arith)
precision_values-IsSetOf (some observed_only) = (((refl, refl), tt), refl, omega arith)
precision_values-IsSetOf (some no_opening) = (((refl, refl), tt), refl, omega arith)

pub sort_value-IsPlain : (sort : DashboardSort) → IsPlain (sort_value sort)
unfolding is_space
sort_value-IsPlain by_window = (refl, refl)
sort_value-IsPlain by_confidence = (refl, refl)
sort_value-IsPlain by_evidence = (refl, refl)
sort_value-IsPlain by_company = (refl, refl)
