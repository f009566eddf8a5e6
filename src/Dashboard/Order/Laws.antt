-- ===== src/Dashboard/Order/Laws.antt =====
-- The comparison is a total order of the roles, for every sort.
use stseen.Dashboard.{DashboardSort, by_window, by_confidence, by_evidence, by_company, RoleFacts}
use stseen.Dashboard.Order.{
  or_else, nulls_last, ascending, descending, by_text, forecast_only, not_forecastable,
  dated_events, by_sort, company_first, by_days, compare_roles,
}
use stseen.Prelude.{
  zero, suc, ◌≡◌, ◌≢◌, refl, true, false, Option, none, some, arith, Text, text_lt_irrefl,
  text_lt_trans, text_lt_connex,
}
use stseen.Prelude.Int.{ℤ, pos, negsuc, ◌-ℤ◌, pos_part, neg_part}
use stseen.Prelude.Sort.{IsLawful}

module _ {ℓ} {A : Type ℓ} where
  same-IsLawful : IsLawful {A = A} (λ a b. pos 0)
  same-IsLawful = record { flip = λ a b. refl; trans = λ a b c h k. refl }

  or_else-IsLawful :
      (f g : A → A → ℤ) → IsLawful f → IsLawful g → IsLawful (λ a b. or_else (f a b) (g a b))
  or_else-IsLawful f g p q = record {
    flip = λ a b. ground (arith, p.flip a b, p.flip b a, q.flip a b);
    trans = λ a b c h k. ground (
      arith,
      p.flip a c,
      p.flip c a,
      p.flip b c,
      p.flip c b,
      p.flip a b,
      p.flip b a,
      p.trans a b c,
      p.trans c a b,
      p.trans b c a,
      q.trans a b c,
    );
  }

  on-IsLawful {κ} :
      {B : Type κ} (key : A → B) (f : B → B → ℤ) → IsLawful f → IsLawful (λ a b. f (key a) (key b))
  on-IsLawful key f p = record {
    flip = λ a b. p.flip (key a) (key b);
    trans = λ a b c h k. p.trans (key a) (key b) (key c) h k;
  }

  nulls_last-IsLawful : (f : A → A → ℤ) → IsLawful f → IsLawful (nulls_last f)
  nulls_last-IsLawful f p = record { flip = flip; trans = trans }
    where
      flip : (a b : Option A) → pos_part (nulls_last f a b) ≡ neg_part (nulls_last f b a)
      flip none none = refl
      flip none (some b) = refl
      flip (some a) none = refl
      flip (some a) (some b) = p.flip a b

      trans :
          (a b c : Option A)
          → pos_part (nulls_last f a b) ≡ 0
          → pos_part (nulls_last f b c) ≡ 0
          → pos_part (nulls_last f a c) ≡ 0
      trans none none c h k = k
      trans none (some b) c h k = absurd (omega arith)
      trans (some a) b none h k = refl
      trans (some a) none (some c) h k = absurd (omega arith)
      trans (some a) (some b) (some c) h k = p.trans a b c h k

ascending-IsLawful : IsLawful ascending
ascending-IsLawful = record { flip = λ a b. ground arith; trans = λ a b c h k. ground arith }

descending-IsLawful : IsLawful descending
descending-IsLawful = record { flip = λ a b. ground arith; trans = λ a b c h k. ground arith }

minus-IsLawful : IsLawful ◌-ℤ◌
minus-IsLawful = record { flip = λ a b. ground arith; trans = λ a b c h k. ground arith }

-- The lesser or equal texts, by what the two tests say.
by_text_trans :
    (a b c : Text)
    → pos_part (by_text a b) ≡ 0
    → pos_part (by_text b c) ≡ 0
    → pos_part (by_text a c) ≡ 0
by_text_trans a b c h k = ground (
  arith,
  text_lt_trans b c a,
  text_lt_trans c a b,
  text_lt_trans a b c,
  text_lt_connex a b,
  text_lt_connex b c,
)

by_text-IsLawful : IsLawful by_text
by_text-IsLawful = record {
  flip = λ a b.
      ground (arith, text_lt_trans a b a, text_lt_trans b a b, text_lt_irrefl a, text_lt_irrefl b);
  trans = λ a b c h k. by_text_trans a b c h k;
}

company_first-IsLawful : (sort : DashboardSort) → IsLawful (company_first sort)
company_first-IsLawful by_company =
    on-IsLawful (λ (r : RoleFacts). r.company) by_text by_text-IsLawful
company_first-IsLawful by_window = same-IsLawful
company_first-IsLawful by_confidence = same-IsLawful
company_first-IsLawful by_evidence = same-IsLawful

by_sort-IsLawful : (sort : DashboardSort) → IsLawful (by_sort sort)
by_sort-IsLawful by_confidence =
    on-IsLawful (λ (r : RoleFacts). forecast_only r.forecastable r.confidence)
      (nulls_last descending) (nulls_last-IsLawful descending descending-IsLawful)
by_sort-IsLawful by_evidence =
    or_else-IsLawful _ _
      (on-IsLawful (λ (r : RoleFacts). forecast_only r.forecastable r.history_count)
        (nulls_last descending) (nulls_last-IsLawful descending descending-IsLawful))
      (on-IsLawful dated_events descending descending-IsLawful)
by_sort-IsLawful by_window = same-IsLawful
by_sort-IsLawful by_company = same-IsLawful

by_days-IsLawful : IsLawful by_days
by_days-IsLawful =
    on-IsLawful (λ (r : RoleFacts). forecast_only r.forecastable r.days_until) (nulls_last ◌-ℤ◌)
      (nulls_last-IsLawful ◌-ℤ◌ minus-IsLawful)

-- For every sort the comparison is a consistent order: the answers for two roles in either order
-- are each other's negatives, and being listed no later is transitive.
pub compare_roles-IsLawful : (sort : DashboardSort) → IsLawful (compare_roles sort)
unfolding compare_roles
compare_roles-IsLawful sort =
    or_else-IsLawful (company_first sort) _ (company_first-IsLawful sort) (
      or_else-IsLawful _ _ (on-IsLawful not_forecastable ascending ascending-IsLawful) (
        or_else-IsLawful (by_sort sort) _ (by_sort-IsLawful sort) (
          or_else-IsLawful by_days _ by_days-IsLawful (
            or_else-IsLawful _ _
              (on-IsLawful (λ (r : RoleFacts). r.company) by_text by_text-IsLawful)
              (or_else-IsLawful _ _
                (on-IsLawful (λ (r : RoleFacts). r.role) by_text by_text-IsLawful)
                (on-IsLawful (λ (r : RoleFacts). r.id) by_text by_text-IsLawful))))))

or_else-eq_zero : (a b : ℤ) → or_else a b ≡ pos 0 → b ≡ pos 0
or_else-eq_zero (pos zero) b h = h
or_else-eq_zero (pos (suc n)) b h = cc
or_else-eq_zero (negsuc n) b h = cc

by_text-eq_zero : (s t : Text) → by_text s t ≡ pos 0 → s ≡ t
by_text-eq_zero s t h = ground (arith, text_lt_connex s t)

-- Two roles that the comparison does not tell apart have the same id.
pub compare_roles-eq_zero :
    (sort : DashboardSort) (a b : RoleFacts) → compare_roles sort a b ≡ pos 0 → a.id ≡ b.id
unfolding compare_roles
compare_roles-eq_zero sort a b h = by_text-eq_zero a.id b.id (
    or_else-eq_zero (by_text a.role b.role) _ (
      or_else-eq_zero (by_text a.company b.company) _ (
        or_else-eq_zero (by_days a b) _ (
          or_else-eq_zero (by_sort sort a b) _ (
            or_else-eq_zero (ascending (not_forecastable a) (not_forecastable b)) _
              (or_else-eq_zero (company_first sort a b) _ h))))))

-- A role without a forecast is listed after every role with one, unless companies come first.
pub compare_roles-forecast_first :
    (sort : DashboardSort) (a b : RoleFacts)
    → sort ≢ by_company
    → a.forecastable ≡ true
    → b.forecastable ≡ false
    → compare_roles sort a b ≡ negsuc 0
unfolding compare_roles
compare_roles-forecast_first by_company a b h p q = absurd (h refl)
compare_roles-forecast_first by_window a b h p q = ground arith
compare_roles-forecast_first by_confidence a b h p q = ground arith
compare_roles-forecast_first by_evidence a b h p q = ground arith
