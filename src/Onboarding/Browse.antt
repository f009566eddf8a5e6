-- ===== src/Onboarding/Browse.antt =====
-- Where "keep browsing" leads: the roles view, filtered to the answers.
use stseen.Dashboard.Query.{concat, dedupe, disciplines, program_types, parse_dashboard_filters}
use stseen.Dashboard.Query.Dedupe.{
  dedupe-dedupe, dedupe-All, length-dedupe-le, length-chosen-le, chosen-All, chosen,
}
use stseen.Dashboard.Query.Href.{dashboard_href}
use stseen.Dashboard.Query.Link.{values_of}
use stseen.Dashboard.Query.RoundTrip.{IsChosen, IsCanonical, parse_dashboard_filters-dashboard_href}
use stseen.Onboarding.{
  OnboardingAnswers, disciplines_for_fields, program_types_for, answers_to_filters, browse_href,
}
use stseen.Onboarding.Tables.{
  LookingFor, internship, new_grad, co_op, FieldValue, field_values, disciplines_of, has_field,
}
use stseen.Prelude.{
  ℕ, ◌≤◌, ◌≡◌, refl, true, List, [], map, all_of_All, all-All, any, Option, none, some, Text,
  text_eq, arith,
}
use stseen.Prelude.Int.{ℤ, pos}
use stseen.Prelude.Words.{trim, decimal}

abbrev IsDiscipline : Text → Type 0
IsDiscipline d = any (text_eq d) disciplines ≡ true

disciplines_for_fields-IsChosen :
    (fields : List FieldValue) → IsChosen disciplines (disciplines_for_fields fields)
unfolding disciplines_for_fields concat
disciplines_for_fields-IsChosen fields =
    let covered = chosen disciplines_of (has_field fields) field_values in
    (
      (
        all_of_All (λ d. any (text_eq d) disciplines) (dedupe [] covered)
            (dedupe-All IsDiscipline [] covered (
              chosen-All disciplines_of (has_field fields) IsDiscipline field_values (
                all-All (λ d. any (text_eq d) disciplines)
                  (concat (map disciplines_of field_values)) refl))),
        omega (
          arith,
          length-dedupe-le [] covered,
          length-chosen-le disciplines_of (has_field fields) field_values,
        ),
      ),
      dedupe-dedupe [] covered,
    )

program_types_for-IsChosen : (o : Option LookingFor) → IsChosen program_types (program_types_for o)
unfolding dedupe
program_types_for-IsChosen none = ((refl, omega arith), refl)
program_types_for-IsChosen (some internship) = ((refl, omega arith), refl)
program_types_for-IsChosen (some new_grad) = ((refl, omega arith), refl)
program_types_for-IsChosen (some co_op) = ((refl, omega arith), refl)

answers_to_filters-IsCanonical :
    (lower : Text → Text) (a : OnboardingAnswers) → IsCanonical lower (answers_to_filters a)
unfolding answers_to_filters dedupe trim
answers_to_filters-IsCanonical lower a = (
  (refl, omega arith),
  disciplines_for_fields-IsChosen a.fields,
  (refl, refl, refl, omega arith),
  program_types_for-IsChosen a.looking_for,
  ((refl, omega arith), refl),
  (refl, refl, omega arith),
  tt,
  ((refl, omega arith), refl),
  tt,
  refl,
  (omega arith, omega arith),
)

-- The link that "keep browsing" follows is read back by the roles view as the very filters that the
-- answers make, whatever the answers.
pub parse_dashboard_filters-browse_href :
    (number : Text → Option ℕ) (parse_int : Text → Option ℤ) (lower : Text → Text)
    → ((n : ℕ) → n ≤ 10000 → number (decimal n) ≡ some n)
    → ((n : ℕ) → n ≤ 10000 → parse_int (decimal n) ≡ some (pos n))
    → (a : OnboardingAnswers)
    → parse_dashboard_filters number parse_int lower (values_of (browse_href a))
      ≡ answers_to_filters a
unfolding browse_href dashboard_href answers_to_filters
parse_dashboard_filters-browse_href number parse_int lower h k a =
    parse_dashboard_filters-dashboard_href number parse_int lower h k (answers_to_filters a)
      (answers_to_filters-IsCanonical lower a)
