-- ===== src/Dashboard/Order.antt =====
-- `compareRoles`, the order of the roles view.
pub mod Laws
use stseen.Dashboard.{DashboardSort, by_window, by_confidence, by_evidence, by_company, RoleFacts}
use stseen.Prelude.{
  ℕ, zero, ◌+◌, Bool, true, false, Option, none, some, if◌then◌else◌, Text, text_lt,
}
use stseen.Prelude.Int.{ℤ, pos, negsuc, sub_ℕ, ◌-ℤ◌}

-- `a || b` on numbers.
abbrev pub or_else : ℤ → ℤ → ℤ
or_else (pos zero) b = b
or_else a b = a

-- `nullsLast(x, y)`, with the difference that it takes of two values.
abbrev pub nulls_last {ℓ} : {A : Type ℓ} → (A → A → ℤ) → Option A → Option A → ℤ
nulls_last minus none none = pos 0
nulls_last minus none (some y) = pos 1
nulls_last minus (some x) none = negsuc 0
nulls_last minus (some x) (some y) = minus x y

abbrev pub ascending : ℕ → ℕ → ℤ
ascending x y = sub_ℕ x y

abbrev pub descending : ℕ → ℕ → ℤ
descending x y = sub_ℕ y x

-- `text(x, y)`
abbrev pub by_text : Text → Text → ℤ
by_text x y = if text_lt x y then negsuc 0 else if text_lt y x then pos 1 else pos 0

-- `a.forecastable ? value : null`
abbrev pub forecast_only {ℓ} : {A : Type ℓ} → Bool → Option A → Option A
forecast_only true v = v
forecast_only false v = none

abbrev pub not_forecastable : RoleFacts → ℕ
not_forecastable r = if r.forecastable then 0 else 1

abbrev pub dated_events : RoleFacts → ℕ
dated_events r = r.exact_events + r.bounded_events

-- The part of the comparison that the chosen sort adds before the window's date.
abbrev pub by_sort : DashboardSort → RoleFacts → RoleFacts → ℤ
by_sort by_confidence a b =
    nulls_last descending (forecast_only a.forecastable a.confidence)
      (forecast_only b.forecastable b.confidence)
by_sort by_evidence a b =
    or_else
      (nulls_last descending (forecast_only a.forecastable a.history_count)
        (forecast_only b.forecastable b.history_count))
      (descending (dated_events a) (dated_events b))
by_sort by_window a b = pos 0
by_sort by_company a b = pos 0

abbrev pub company_first : DashboardSort → RoleFacts → RoleFacts → ℤ
company_first by_company a b = by_text a.company b.company
company_first by_window a b = pos 0
company_first by_confidence a b = pos 0
company_first by_evidence a b = pos 0

abbrev pub by_days : RoleFacts → RoleFacts → ℤ
by_days a b =
    nulls_last ◌-ℤ◌ (forecast_only a.forecastable a.days_until)
      (forecast_only b.forecastable b.days_until)

unfoldable pub compare_roles : DashboardSort → RoleFacts → RoleFacts → ℤ
compare_roles sort a b = or_else (company_first sort a b) (
    or_else (ascending (not_forecastable a) (not_forecastable b)) (
      or_else (by_sort sort a b) (
        or_else (by_days a b) (
          or_else (by_text a.company b.company)
            (or_else (by_text a.role b.role) (by_text a.id b.id))))))
