-- ===== src/Dashboard/View/Counts.antt =====
-- What the counts of the summary say of one another.
use stseen.Dashboard.{
  FilterKey, same_key, filter_keys, DashboardFilters, RoleFacts, cleared, per_company_limit,
}
use stseen.Dashboard.Matching.{filter_matches, matches_all}
use stseen.Dashboard.Matching.Laws.{matches_all-cleared}
use stseen.Dashboard.Matching.Keys.{all-split}
use stseen.Dashboard.Order.{compare_roles}
use stseen.Dashboard.View.{show, company_ids, matching_roles_of, shown_of, exclusion_of, summary_of}
use stseen.Prelude.{
  ℕ, zero, suc, ◌+◌, ◌≤◌, ◌<◌, min, ◌≡◌, refl, ◌∙◌, sym, ap, Bool, not, ◌&&◌, ◌||◌, List, [], ◌∷◌,
  arith, if◌then◌else◌, ltb, length, count, all, Text, text_eq, text_eq_iff, length-filter,
  count-not, count-split, count_congr, count-filter, count_mono,
}
use stseen.Prelude.Sort.{length-sort, count-sort}
use stseen.Prelude.Tally.{Tally, tally_of, bump, bump_all, excess, tally_of-bump, excess-bump}

module _ (cap : ℕ) (limited : 0 < cap) where
  length-show :
      (m : Tally) (rs : List RoleFacts)
      → length (show cap m rs) + excess cap (bump_all m (company_ids rs)) ≡ length rs + excess cap m
  unfolding show bump_all
  length-show m [] = refl
  length-show m (r ∷ rs) =
      ground (arith, length-show (bump r.company_id m) rs, excess-bump cap r.company_id m)

  -- Each company is shown as often as it matches, up to the limit.
  count-show :
      (c : Text) (m : Tally) (rs : List RoleFacts)
      → count (λ p. text_eq p.0.company_id c) (show cap m rs) + min (tally_of c m) cap
        ≡ min (tally_of c m + count (λ r. text_eq r.company_id c) rs) cap
  unfolding show
  count-show c m [] = omega arith
  count-show c m (r ∷ rs) = ground (
    arith,
    count-show c (bump r.company_id m) rs,
    tally_of-bump c r.company_id m,
    text_eq_iff r.company_id c,
  )

length-show_unlimited : (m : Tally) (rs : List RoleFacts) → length (show 0 m rs) ≡ length rs
unfolding show
length-show_unlimited m [] = refl
length-show_unlimited m (r ∷ rs) = ground (arith, length-show_unlimited (bump r.company_id m) rs)

count-show_unlimited :
    (c : Text) (m : Tally) (rs : List RoleFacts)
    → count (λ p. text_eq p.0.company_id c) (show 0 m rs) ≡ count (λ r. text_eq r.company_id c) rs
unfolding show
count-show_unlimited c m [] = refl
count-show_unlimited c m (r ∷ rs) = ground (arith, count-show_unlimited c (bump r.company_id m) rs)

accounted :
    (cap : ℕ) (rs : List RoleFacts)
    → length (show cap [] rs) + (if ltb 0 cap then excess cap (bump_all [] (company_ids rs)) else 0)
      ≡ length rs
unfolding excess
accounted zero rs = omega (arith, length-show_unlimited [] rs)
accounted (suc c) rs = ground (arith, length-show (suc c) (omega arith) [] rs)

count-show_company :
    (cap : ℕ) (c : Text) (rs : List RoleFacts)
    → let matching = count (λ r. text_eq r.company_id c) rs in
      count (λ p. text_eq p.0.company_id c) (show cap [] rs)
      ≡ (if ltb 0 cap then min matching cap else matching)
unfolding tally_of
count-show_company zero c rs = count-show_unlimited c [] rs
count-show_company (suc n) c rs = ground (arith, count-show (suc n) (omega arith) c [] rs)

module _ (lower : Text → Text) (roles : List RoleFacts) (f : DashboardFilters) where
  length-matching :
      length (matching_roles_of lower roles f) ≡ count (λ r. matches_all lower r f) roles
  unfolding matching_roles_of
  length-matching =
      length-sort (compare_roles f.sort) _ ∙ length-filter (λ r. matches_all lower r f) roles

  count-matching :
      (p : RoleFacts → Bool)
      → count p (matching_roles_of lower roles f) ≡ count (λ r. p r && matches_all lower r f) roles
  unfolding matching_roles_of
  count-matching p =
      count-sort (compare_roles f.sort) p _ ∙ count-filter (λ r. matches_all lower r f) p roles

  matching-le : (p : RoleFacts → Bool) → count p (matching_roles_of lower roles f) ≤ count p roles
  matching-le p = omega (
    arith,
    count-matching p,
    count_mono (λ r. p r && matches_all lower r f) p roles (λ r h. ground arith),
  )

  -- No matching role is hidden without being counted: those shown and those collapsed under their
  -- companies are all that match.
  pub shown-add-collapsed :
      let s = summary_of lower roles f in s.shown_roles + s.collapsed_roles ≡ s.matching_roles
  unfolding summary_of
  shown-add-collapsed = accounted (per_company_limit f) (matching_roles_of lower roles f)

  -- A company is shown as often as it matches, up to the limit, if there is one.
  pub count-shown :
      (c : Text)
      → let matching = count (λ r. text_eq r.company_id c) (matching_roles_of lower roles f) in
        let cap = per_company_limit f in
        count (λ p. text_eq p.0.company_id c) (shown_of lower roles f)
        ≡ (if ltb 0 cap then min matching cap else matching)
  unfolding shown_of
  count-shown c = count-show_company (per_company_limit f) c (matching_roles_of lower roles f)

  -- Every role matches or not, is forecastable or not, and each pair of counts says so; what the
  -- summary states of the matching roles is a part of what it states of all.
  pub summary_adds_up :
      let s = summary_of lower roles f in
      (s.forecastable_roles + s.insufficient_roles ≡ s.in_scope_roles)
      × (s.matching_forecastable + s.matching_insufficient ≡ s.matching_roles)
      × (s.matching_forecastable ≤ s.forecastable_roles)
      × (s.matching_insufficient ≤ s.insufficient_roles)
      × (s.opening_within_30_days ≤ s.matching_forecastable)
      × (s.followed_forecastable ≤ s.followed_roles)
  unfolding summary_of
  summary_adds_up = (
    count-not (λ r. r.forecastable) roles,
    count-not (λ r. r.forecastable) (matching_roles_of lower roles f),
    matching-le (λ r. r.forecastable),
    matching-le (λ r. not r.forecastable),
    count_mono _ (λ r. r.forecastable) (matching_roles_of lower roles f) (λ r h. ground arith),
    count_mono _ (λ r. r.followed) roles (λ r h. ground arith),
  )

  abbrev all_but : FilterKey → RoleFacts → Bool
  all_but k r = all (λ j. same_key j k || filter_matches lower r f j) filter_keys

  and-matches :
      (r : RoleFacts) (k : FilterKey)
      → (all_but k r && filter_matches lower r f k) ≡ matches_all lower r f
  unfolding matches_all
  and-matches r k = rw (all-split (filter_matches lower r f) k) (ground arith)

  count-but :
      (k : FilterKey)
      → count (all_but k) roles
        ≡ count (λ r. all_but k r && filter_matches lower r f k) roles
          + count (λ r. not (filter_matches lower r f k) && all_but k r) roles
  count-but k =
      count-split (all_but k) (λ r. filter_matches lower r f k) roles
      ∙ ap (λ n. count (λ r. all_but k r && filter_matches lower r f k) roles + n)
          (count_congr _ _ roles (λ r. ground arith))

  -- The roles that would match without a filter are those that match and those that it alone
  -- leaves out.
  pub without-add :
      (k : FilterKey)
      → let s = summary_of lower roles f in
        (s.exclusions k).without
        ≡ s.matching_roles
          + count
              (λ r.
                not (filter_matches lower r f k)
                && all (λ j. same_key j k || filter_matches lower r f j) filter_keys)
              roles
  unfolding summary_of exclusion_of
  without-add k = rw length-matching (
      count-but k
      ∙ ap (λ n. n + count (λ r. not (filter_matches lower r f k) && all_but k r) roles)
          (count_congr (λ r. all_but k r && filter_matches lower r f k) (λ r. matches_all lower r f)
            roles (λ r. and-matches r k)))

  length-matching_cleared :
      (k : FilterKey)
      → length (matching_roles_of lower roles (cleared k f))
        ≡ count (λ r. matches_all lower r (cleared k f)) roles
  unfolding matching_roles_of
  length-matching_cleared k =
      length-sort (compare_roles (cleared k f).sort) _
      ∙ length-filter (λ r. matches_all lower r (cleared k f)) roles

  -- What a filter's exclusion promises is what the view without it finds.
  pub without-cleared :
      lower [] ≡ []
      → (k : FilterKey)
      → ((summary_of lower roles f).exclusions k).without
        ≡ (summary_of lower roles (cleared k f)).matching_roles
  unfolding summary_of exclusion_of
  without-cleared lower_empty k =
      count_congr (all_but k) (λ r. matches_all lower r (cleared k f)) roles
        (λ r. sym (matches_all-cleared lower lower_empty r f k))
      ∙ sym (length-matching_cleared k)
