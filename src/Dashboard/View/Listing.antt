-- ===== src/Dashboard/View/Listing.antt =====
-- Which roles the view lists, in what order, and how they fall into pages.
use mathlib.Core.List.{Perm, map-append}
use stseen.Dashboard.{DashboardFilters, RoleFacts, per_company_limit}
use stseen.Dashboard.Matching.{filter_matches, matches_all}
use stseen.Dashboard.Order.{compare_roles}
use stseen.Dashboard.Order.Laws.{compare_roles-IsLawful}
use stseen.Dashboard.View.{
  ListItem, show, page_of, company_ids, matching_roles_of, shown_of, item_of, build_dashboard_view,
}
use stseen.Prelude.{
  ℕ, zero, suc, ◌+◌, ◌-◌, ◌*◌, ◌≤◌, ◌≡◌, refl, ap, ◌∙◌, sym, true, List, [], ◌∷◌, ◌++◌, map, Option,
  arith, ltb, length, take, drop, filter, All, Text, text_eq_refl, length-take-le, take-add,
  take_of_length-le, length-map,
}
use stseen.Prelude.Sort.{IsSorted, sort-IsSorted, sort-perm}
use stseen.Prelude.Tally.{Tally, tally_of, bump, bump_all, tally_of-bump, tally_of-bump_all}

module _ (lower : Text → Text) (roles : List RoleFacts) (f : DashboardFilters) where
  -- The listed roles are exactly the roles that pass every filter, each as often as it is given,
  -- and they stand in the order of the chosen sort.
  pub matching_roles_ordered :
      Perm (matching_roles_of lower roles f) (filter (λ r. matches_all lower r f) roles)
      × IsSorted (compare_roles f.sort) (matching_roles_of lower roles f)
  unfolding matching_roles_of
  matching_roles_ordered = (
    sort-perm (compare_roles f.sort) (filter (λ r. matches_all lower r f) roles),
    sort-IsSorted (compare_roles f.sort) (compare_roles-IsLawful f.sort)
        (filter (λ r. matches_all lower r f) roles),
  )

abbrev pub RankFits : ℕ → Tally → RoleFacts × ℕ → Type 0
RankFits cap totals (r, rank) =
    (1 ≤ rank) × (rank ≤ tally_of r.company_id totals) × (ltb 0 cap ≡ true → rank ≤ cap)

show-RankFits :
    (cap : ℕ) (seen : Tally) (rs : List RoleFacts)
    → All (RankFits cap (bump_all seen (company_ids rs))) (show cap seen rs)
unfolding show bump_all
show-RankFits cap seen [] = tt
show-RankFits cap seen (r ∷ rs) = ground (
  arith,
  show-RankFits cap (bump r.company_id seen) rs,
  tally_of-bump_all r.company_id (bump r.company_id seen) (company_ids rs),
  tally_of-bump r.company_id r.company_id seen,
  text_eq_refl r.company_id,
)

-- The rank of every shown role is at least one, at most its company's total among the matching
-- roles, and at most the limit on each company, if there is one.
pub shown-RankFits :
    (lower : Text → Text) (roles : List RoleFacts) (f : DashboardFilters)
    → All
        (RankFits
          (per_company_limit f)
          (bump_all [] (company_ids (matching_roles_of lower roles f))))
        (shown_of lower roles f)
unfolding shown_of
shown-RankFits lower roles f =
    show-RankFits (per_company_limit f) [] (matching_roles_of lower roles f)

module _ {ℓ} {A : Type ℓ} where
  page_of-suc : (n : ℕ) (xs : List A) → page_of (suc n) xs ≡ take 20 (drop (n * 20) xs)
  unfolding page_of
  page_of-suc n xs = ground (arith, ap (λ k. take 20 (drop (k * 20) xs)) (back n))
    where
      back : (k : ℕ) → suc k - 1 ≡ k
      back k = omega arith

  length-page_of-le : (n : ℕ) (xs : List A) → length (page_of n xs) ≤ 20
  unfolding page_of
  length-page_of-le n xs = ground (arith, length-take-le 20 (drop ((n - 1) * 20) xs))

module _ (lower : Text → Text) {F O : Type 0} (forecast_for : RoleFacts → Option F)
    (outlook_for : RoleFacts → Option O) (roles : List RoleFacts) (f : DashboardFilters) where
  -- The items of the page `p` of the view.
  abbrev pub items : ℕ → List (ListItem F O)
  items p = (build_dashboard_view lower forecast_for outlook_for roles (record f { page = p })).0

  -- The first `n` pages, one after the other.
  pub listed : ℕ → List (ListItem F O)
  listed zero = []
  listed (suc n) = listed n ++ items (suc n)

  abbrev pub totals : Tally
  totals = bump_all [] (company_ids (matching_roles_of lower roles f))

  abbrev pub all_items : List (ListItem F O)
  all_items = map (item_of lower forecast_for outlook_for totals) (shown_of lower roles f)

  items-take :
      (n : ℕ)
      → items (suc n)
        ≡ map
            (item_of lower forecast_for outlook_for totals)
            (take 20 (drop (n * 20) (shown_of lower roles f)))
  unfolding build_dashboard_view shown_of matching_roles_of matches_all per_company_limit
      filter_matches
  items-take n =
      ap (map (item_of lower forecast_for outlook_for totals))
        (page_of-suc n (shown_of lower roles f))

  listed-take :
      (n : ℕ)
      → listed n
        ≡ map
            (item_of lower forecast_for outlook_for totals)
            (take (n * 20) (shown_of lower roles f))
  unfolding listed
  listed-take zero = refl
  listed-take (suc n) =
      let shown = shown_of lower roles f in
      let item = item_of lower forecast_for outlook_for totals in
      rw (listed-take n, items-take n)
        (sym (map-append item (take (n * 20) shown) (take 20 (drop (n * 20) shown)))
          ∙ ap (map item) (sym (take-add (n * 20) 20 shown) ∙ ap (λ k. take k shown) (next n)))
    where
      next : (k : ℕ) → k * 20 + 20 ≡ suc k * 20
      next k = omega arith

  length-items : (p : ℕ) → length (items p) ≤ 20
  unfolding build_dashboard_view
  length-items p = omega (
    arith,
    length-map
        (item_of lower forecast_for outlook_for
          (bump_all [] (company_ids (matching_roles_of lower roles (record f { page = p })))))
        (page_of p (shown_of lower roles (record f { page = p }))),
    length-page_of-le p (shown_of lower roles (record f { page = p })),
  )

  -- No page holds more than twenty items, and as many pages as the shown roles need hold each of
  -- them exactly once, in order.
  pub listed-all :
      ((p : ℕ) → length (items p) ≤ 20)
      × ((n : ℕ) → length (shown_of lower roles f) ≤ n * 20 → listed n ≡ all_items)
  listed-all = (
    length-items,
    λ n h.
        listed-take n
        ∙ ap (map (item_of lower forecast_for outlook_for totals))
            (take_of_length-le (n * 20) (shown_of lower roles f) h),
  )
