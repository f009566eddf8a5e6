-- ===== src/Dashboard/Relax/Laws.antt =====
-- What the suggestion to take a filter off promises.
use native.Mathlib.Nat.{le_trans}
use stseen.Dashboard.{FilterKey, filter_keys, DashboardFilters, cleared}
use stseen.Dashboard.Query.Href.{dashboard_href}
use stseen.Dashboard.Relax.{
  is_applied, applied_filter_keys, RelaxSuggestion, is_better, relax_from, relax_suggestion,
}
use stseen.Dashboard.View.{DashboardSummary}
use stseen.Prelude.{
  ℕ, ◌≤◌, ◌<◌, ◌≡◌, refl, Bool, true, ◌&&◌, List, [], ◌∷◌, Option, none, some, false, if◌then◌else◌,
  ltb, filter, All, arith, Bool-cases, inl, inr, subst,
}

module _ (f : DashboardFilters) (s : DashboardSummary) where
  -- How many roles the suggestion finds; none finds those that match as it is.
  abbrev pub found : Option RelaxSuggestion → ℕ
  found none = s.matching_roles
  found (some r) = r.roles

  abbrev pub Suits : Option RelaxSuggestion → Type 0
  Suits none = Unit
  Suits (some r) =
      (s.matching_roles < r.roles)
      × (r.roles ≡ (s.exclusions r.key).without)
      × (is_applied f r.key ≡ true)
      × (r.href ≡ dashboard_href false (cleared r.key f))

  abbrev Covers : Option RelaxSuggestion → List FilterKey → Type 0
  Covers best = All λ key. (s.exclusions key).without ≤ found best

  abbrev step : Option RelaxSuggestion → FilterKey → Option RelaxSuggestion
  step best key =
      let roles = (s.exclusions key).without in
      if ltb s.matching_roles roles && is_better roles best
      then some (record { key = key; roles = roles; href = dashboard_href false (cleared key f) })
      else best

  step-Suits :
      (best : Option RelaxSuggestion) (key : FilterKey)
      → is_applied f key ≡ true
      → Suits best
      → Suits (step best key)
        × (found best ≤ found (step best key))
        × ((s.exclusions key).without ≤ found (step best key))
  step-Suits none key a b =
      let n = (s.exclusions key).without in
      elim (Bool-cases (ltb s.matching_roles n && is_better n none)) [
        | inl e ↦ rw e ((ground arith, refl, a, refl), ground arith, omega arith)
        | inr e ↦ rw e (b, omega arith, ground arith)
      ]
  step-Suits (some r) key a b =
      let n = (s.exclusions key).without in
      elim (Bool-cases (ltb s.matching_roles n && is_better n (some r))) [
        | inl e ↦ rw e ((ground arith, refl, a, refl), ground arith, omega arith)
        | inr e ↦ rw e (b, omega arith, ground arith)
      ]

  relax_from-Suits :
      (best : Option RelaxSuggestion) (keys : List FilterKey)
      → All (λ key. is_applied f key ≡ true) keys
      → Suits best
      → Suits (relax_from f s best keys)
        × (found best ≤ found (relax_from f s best keys))
        × Covers (relax_from f s best keys) keys
  unfolding relax_from
  relax_from-Suits best [] a b = (b, omega arith, tt)
  relax_from-Suits best (key ∷ keys) a b =
      let (suits, more, covers) = step-Suits best key a.0 b in
      let (suits', more', covers') = relax_from-Suits (step best key) keys a.1 suits in
      (suits', le_trans more more', (le_trans covers more', covers'))

All-applied :
    (p : FilterKey → Bool) (keys : List FilterKey) → All (λ key. p key ≡ true) (filter p keys)
All-applied p [] = tt
All-applied p (key ∷ keys) = elim (Bool-cases (p key)) [
  | inl e ↦ rw e (e, All-applied p keys)
  | inr e ↦ rw e (All-applied p keys)
]

All-of_filter :
    (P : FilterKey → Type 0) (p : FilterKey → Bool) (keys : List FilterKey)
    → All P (filter p keys)
    → All (λ key. p key ≡ true → P key) keys
All-of_filter P p [] a = tt
All-of_filter P p (key ∷ keys) a = elim (Bool-cases (p key)) [
  | inl e ↦
      (let a' = subst (λ b. All P (if b then key ∷ filter p keys else filter p keys)) e a in
        (λ h. a'.0, All-of_filter P p keys a'.1))
  | inr e ↦ (
    λ h. absurd (ground arith),
    All-of_filter P p keys
        (subst (λ b. All P (if b then key ∷ filter p keys else filter p keys)) e a),
  )
]

-- The suggestion is an applied filter whose removal adds roles, with the link to the filters that are left and
-- the number of roles that the summary states without it; no other applied filter's removal adds
-- more, and where there is no suggestion none adds any.
pub relax_suggestion-best :
    (f : DashboardFilters) (s : DashboardSummary)
    → Suits f s (relax_suggestion f s)
      × All
          (λ key.
            is_applied f key ≡ true → (s.exclusions key).without ≤ found f s (relax_suggestion f s))
          filter_keys
unfolding relax_suggestion applied_filter_keys
relax_suggestion-best f s =
    let applied = filter (is_applied f) filter_keys in
    let best = relax_from-Suits f s none applied (All-applied (is_applied f) filter_keys) tt in
    (
      best.0,
      All-of_filter (λ key. (s.exclusions key).without ≤ found f s (relax_from f s none applied))
          (is_applied f) filter_keys best.2,
    )
