-- ===== src/Onboarding/Stored.antt =====
-- The fields that an account stores as disciplines, read back.
use stseen.Dashboard.Query.Dedupe.{any-dedupe_nil, any-chosen}
use stseen.Onboarding.{
  string, is_string, clean_answers, disciplines_for_fields, answers_from_preferences,
}
use stseen.Onboarding.Laws.{filter_congr, pointwise-All}
use stseen.Onboarding.Tables.{FieldValue, field_values, field_text, disciplines_of, has_field}
use stseen.Prelude.{
  ◌≡◌, refl, ◌∙◌, Bool, ◌&&◌, List, [], ◌∷◌, map, filter, all, all_congr, any, Text, text_eq, arith,
}

covers : List FieldValue → Text → Bool
covers fields d = any (λ f. any (text_eq d) (disciplines_of f) && has_field fields f) field_values

stored-covers :
    (fields : List FieldValue) (d : Text)
    → any (text_eq d) (disciplines_for_fields fields) ≡ covers fields d
unfolding disciplines_for_fields covers
stored-covers fields d =
    any-dedupe_nil d _ ∙ any-chosen disciplines_of (has_field fields) d field_values

covers-field :
    (fields : List FieldValue) (f : FieldValue)
    → all (covers fields) (disciplines_of f) ≡ has_field fields f
unfolding covers
covers-field fields FieldValue.software_engineering = ground arith
covers-field fields FieldValue.machine_learning = ground arith
covers-field fields FieldValue.data_field = ground arith
covers-field fields FieldValue.infrastructure = ground arith
covers-field fields FieldValue.security = ground arith
covers-field fields FieldValue.hardware = ground arith
covers-field fields FieldValue.robotics = ground arith
covers-field fields FieldValue.quantitative = ground arith
covers-field fields FieldValue.product_management = ground arith
covers-field fields FieldValue.design = ground arith
covers-field fields FieldValue.other_engineering = ground arith

strings-has_field :
    (fields : List FieldValue) (f : FieldValue)
    → any (is_string (field_text f)) (map (λ g. string (field_text g)) fields) ≡ has_field fields f
strings-has_field [] f = refl
strings-has_field (g ∷ fields) f = rw (strings-has_field fields f) refl

stored-has_field :
    (fields : List FieldValue) (f : FieldValue)
    → all (λ d. any (text_eq d) (disciplines_for_fields fields)) (disciplines_of f)
      ≡ has_field fields f
stored-has_field fields f =
    all_congr (λ d. any (text_eq d) (disciplines_for_fields fields)) (covers fields)
      (disciplines_of f) (stored-covers fields)
    ∙ covers-field fields f

-- Fields in the order of the table that are stored as the disciplines that they cover are read back
-- as they were, with no discipline lost and no field added.
pub answers_from_preferences-disciplines_for_fields :
    (lower : Text → Text) (fields : List FieldValue)
    → filter (has_field fields) field_values ≡ fields
    → (answers_from_preferences lower (disciplines_for_fields fields)).fields ≡ fields
unfolding answers_from_preferences clean_answers
answers_from_preferences-disciplines_for_fields lower fields h =
    let covered = λ (f : FieldValue).
      all (λ d. any (text_eq d) (disciplines_for_fields fields)) (disciplines_of f) in
    filter_congr
      (λ f.
        any (is_string (field_text f))
          (map (λ g. string (field_text g)) (filter covered field_values)))
      (has_field (filter covered field_values)) field_values
      (pointwise-All _ field_values (strings-has_field (filter covered field_values)))
    ∙ rw
        (
          filter_congr covered (has_field fields) field_values
              (pointwise-All _ field_values (stored-has_field fields)),
          h,
          h,
        )
        refl
