-- ===== src/Onboarding/Laws.antt =====
-- Answers that are cleaned, and the first run's link read back.
use mathlib.Core.List.{append-nil, map-id}
use stseen.Dashboard.Query.{dedupe, is_uuid}
use stseen.Dashboard.Query.Dedupe.{take-dedupe, dedupe-All, take-All}
use stseen.Dashboard.Query.Link.{values_of}
use stseen.Onboarding.{
  OnboardingAnswers, Unknown, string, other, is_string, uuids, RawAnswers, or_nil, clean_answers,
  parse_onboarding_answers, welcome_href, step_pair, for_pair, looking_for_in, string_or_other,
}
use stseen.Onboarding.Tables.{
  LookingFor, internship, new_grad, co_op, FieldValue, field_values, field_text, has_field,
}
use stseen.Prelude.{
  ◌≤◌, ◌≡◌, refl, ap, Bool, true, false, ◌&&◌, List, [], ◌∷◌, ◌++◌, Option, none, some, map, filter,
  any, All, take_of_length-le, length, length-take-le, head?, Text, text_eq, text_eq→eq, codes,
  Bool-cases, inl, inr, arith,
}

pub filter_congr :
    {A : Type 0} (p q : A → Bool) (xs : List A)
    → All (λ x. p x ≡ q x) xs
    → filter p xs ≡ filter q xs
filter_congr p q [] h = refl
filter_congr p q (x ∷ xs) h = rw (h.0, filter_congr p q xs h.1) refl

-- Answers in their one form: fields in the order of the table, and at most ten different companies.
abbrev pub IsClean : (Text → Text) → OnboardingAnswers → Type 0
IsClean lower a =
    (filter (has_field a.fields) field_values ≡ a.fields)
    × All (λ c. (is_uuid c ≡ true) × (lower c ≡ c)) a.companies
    × (dedupe [] a.companies ≡ a.companies)
    × (length a.companies ≤ 10)

-- A test of a field's text, of the fields that pass it.
has_field-filter :
    (p : Text → Bool) (f : FieldValue) (fields : List FieldValue)
    → has_field (filter (λ x. p (field_text x)) fields) f ≡ (has_field fields f && p (field_text f))
has_field-filter p f [] = refl
has_field-filter p f (g ∷ fields) = elim (Bool-cases (text_eq (field_text f) (field_text g))) [
  | inl e ↦
      ground (arith, has_field-filter p f fields, ap p (text_eq→eq (field_text f) (field_text g) e))
  | inr e ↦ ground (arith, has_field-filter p f fields)
]

table_has-true : (f : FieldValue) → has_field field_values f ≡ true
table_has-true FieldValue.software_engineering = refl
table_has-true FieldValue.machine_learning = refl
table_has-true FieldValue.data_field = refl
table_has-true FieldValue.infrastructure = refl
table_has-true FieldValue.security = refl
table_has-true FieldValue.hardware = refl
table_has-true FieldValue.robotics = refl
table_has-true FieldValue.quantitative = refl
table_has-true FieldValue.product_management = refl
table_has-true FieldValue.design = refl
table_has-true FieldValue.other_engineering = refl

pub pointwise-All : {A : Type 0} (P : A → Type 0) (xs : List A) → ((x : A) → P x) → All P xs
pointwise-All P [] h = tt
pointwise-All P (x ∷ xs) h = (h x, pointwise-All P xs h)

cleaned-has_field :
    (p : Text → Bool) (f : FieldValue)
    → has_field (filter (λ x. p (field_text x)) field_values) f ≡ p (field_text f)
cleaned-has_field p f = rw (has_field-filter p f field_values, table_has-true f) refl

filter-has_field :
    (p : Text → Bool)
    → filter (has_field (filter (λ x. p (field_text x)) field_values)) field_values
      ≡ filter (λ x. p (field_text x)) field_values
filter-has_field p =
    filter_congr (has_field (filter (λ x. p (field_text x)) field_values)) (λ x. p (field_text x))
      field_values
      (pointwise-All
        (λ f. has_field (filter (λ x. p (field_text x)) field_values) f ≡ p (field_text f))
        field_values (cleaned-has_field p))

uuids-All : (values : List Unknown) → All (λ t. is_uuid t ≡ true) (uuids values)
uuids-All [] = tt
uuids-All (other ∷ values) = uuids-All values
uuids-All (string t ∷ values) = elim (Bool-cases (is_uuid t)) [
  | inl e ↦ rw e (e, uuids-All values)
  | inr e ↦ rw e (uuids-All values)
]

module _ (lower : Text → Text)
    (lower-is_uuid : (t : Text) → is_uuid t ≡ true → is_uuid (lower t) ≡ true)
    (lower-lower : (t : Text) → lower (lower t) ≡ lower t) where
  pub lowered-All :
      (ts : List Text)
      → All (λ t. is_uuid t ≡ true) ts
      → All (λ c. (is_uuid c ≡ true) × (lower c ≡ c)) (map lower ts)
  lowered-All [] h = tt
  lowered-All (t ∷ ts) h = ((lower-is_uuid t h.0, lower-lower t), lowered-All ts h.1)

  -- Answers from anywhere, once they are cleaned, have the one form: known fields in the order of
  -- the table and at most ten different companies, each a UUID in small letters.
  pub clean_answers-IsClean : (raw : RawAnswers) → IsClean lower (clean_answers lower raw)
  unfolding clean_answers
  clean_answers-IsClean raw =
      let ts = uuids (or_nil raw.companies) in
      (
        filter-has_field (λ t. any (is_string t) (or_nil raw.fields)),
        take-All (λ c. (is_uuid c ≡ true) × (lower c ≡ c)) 10 (dedupe [] (map lower ts))
            (dedupe-All (λ c. (is_uuid c ≡ true) × (lower c ≡ c)) [] (map lower ts)
              (lowered-All ts (uuids-All (or_nil raw.companies)))),
        take-dedupe 10 [] (map lower ts),
        length-take-le 10 (dedupe [] (map lower ts)),
      )

values_of-append :
    (ps qs : List (Text × Text)) (key : Text)
    → values_of (ps ++ qs) key ≡ values_of ps key ++ values_of qs key
values_of-append [] qs key = refl
values_of-append (p ∷ ps) qs key = elim (Bool-cases (text_eq p.0 key)) [
  | inl e ↦ rw (e, values_of-append ps qs key) refl
  | inr e ↦ rw (e, values_of-append ps qs key) refl
]

module _ {A : Type 0} (text_of : A → Text) (k key : Text) where
  values_of-same :
      (xs : List A)
      → text_eq k key ≡ true
      → values_of (map {B = Text × Text} (λ x. (k, text_of x)) xs) key ≡ map text_of xs
  values_of-same [] h = refl
  values_of-same (x ∷ xs) h = rw (h, values_of-same xs h) refl

  values_of-different :
      (xs : List A)
      → text_eq k key ≡ false
      → values_of (map {B = Text × Text} (λ x. (k, text_of x)) xs) key ≡ []
  values_of-different [] h = refl
  values_of-different (x ∷ xs) h = rw (h, values_of-different xs h) refl

step_pair-values :
    (ready : Bool) (key : Text)
    → text_eq (codes "step") key ≡ false
    → values_of (step_pair ready) key ≡ []
step_pair-values true key h = rw h refl
step_pair-values false key h = refl

for_pair-values :
    (o : Option LookingFor) (key : Text)
    → text_eq (codes "for") key ≡ false
    → values_of (for_pair o) key ≡ []
for_pair-values none key h = refl
for_pair-values (some looking_for) key h = rw h refl

welcome_href-values :
    (ready : Bool) (a : OnboardingAnswers) (key : Text)
    → text_eq (codes "step") key ≡ false
    → values_of (welcome_href ready a) key
      ≡ values_of (for_pair a.looking_for) key
        ++ (values_of (map {B = Text × Text} (λ f. (codes "field", field_text f)) a.fields) key
            ++ values_of (map {B = Text × Text} (λ c. (codes "company", c)) a.companies) key)
unfolding welcome_href
welcome_href-values ready a key h =
    rw
      (
        values_of-append (step_pair ready) _ key,
        step_pair-values ready key h,
        values_of-append (for_pair a.looking_for) _ key,
        values_of-append (map {B = Text × Text} (λ f. (codes "field", field_text f)) a.fields) _
            key,
      )
      refl

field_values-href :
    (ready : Bool) (a : OnboardingAnswers)
    → values_of (welcome_href ready a) (codes "field") ≡ map field_text a.fields
field_values-href ready a =
    rw
      (
        welcome_href-values ready a (codes "field") refl,
        for_pair-values a.looking_for (codes "field") refl,
        values_of-same field_text (codes "field") (codes "field") a.fields refl,
        values_of-different (λ c. c) (codes "company") (codes "field") a.companies refl,
      )
      (append-nil (map field_text a.fields))

company_values-href :
    (ready : Bool) (a : OnboardingAnswers)
    → values_of (welcome_href ready a) (codes "company") ≡ a.companies
company_values-href ready a =
    rw
      (
        welcome_href-values ready a (codes "company") refl,
        for_pair-values a.looking_for (codes "company") refl,
        values_of-different field_text (codes "field") (codes "company") a.fields refl,
        values_of-same (λ c. c) (codes "company") (codes "company") a.companies refl,
      )
      (map-id a.companies)

for_values-href :
    (ready : Bool) (a : OnboardingAnswers)
    → head? (values_of (welcome_href ready a) (codes "for"))
      ≡ head? (values_of (for_pair a.looking_for) (codes "for"))
for_values-href ready a =
    rw
      (
        welcome_href-values ready a (codes "for") refl,
        values_of-different field_text (codes "field") (codes "for") a.fields refl,
        values_of-different (λ c. c) (codes "company") (codes "for") a.companies refl,
        append-nil (values_of (for_pair a.looking_for) (codes "for")),
      )
      refl

looking_for-read :
    (o : Option LookingFor)
    → looking_for_in (string_or_other (head? (values_of (for_pair o) (codes "for")))) ≡ o
looking_for-read none = refl
looking_for-read (some internship) = refl
looking_for-read (some new_grad) = refl
looking_for-read (some co_op) = refl

strings-has_field :
    (fields : List FieldValue) (f : FieldValue)
    → any (is_string (field_text f)) (map string (map field_text fields)) ≡ has_field fields f
strings-has_field [] f = refl
strings-has_field (g ∷ fields) f = rw (strings-has_field fields f) refl

module _ (lower : Text → Text) where
  uuids-string :
      (cs : List Text)
      → All (λ c. (is_uuid c ≡ true) × (lower c ≡ c)) cs
      → map lower (uuids (map string cs)) ≡ cs
  uuids-string [] h = refl
  uuids-string (c ∷ cs) h = rw (h.0.0, h.0.1, uuids-string cs h.1) refl

  -- The first run's link, read back, has the answers that it was made of, where they are in the one
  -- form.
  pub parse_onboarding_answers-welcome_href :
      (ready : Bool) (a : OnboardingAnswers)
      → IsClean lower a
      → parse_onboarding_answers lower (values_of (welcome_href ready a)) ≡ a
  unfolding parse_onboarding_answers clean_answers
  parse_onboarding_answers-welcome_href ready a h =
      rw
        (
          for_values-href ready a,
          looking_for-read a.looking_for,
          field_values-href ready a,
          filter_congr (λ f. any (is_string (field_text f)) (map string (map field_text a.fields)))
              (has_field a.fields) field_values
              (pointwise-All _ field_values λ f. strings-has_field a.fields f),
          h.0,
          company_values-href ready a,
          uuids-string a.companies h.1,
          h.2,
          take_of_length-le 10 a.companies h.3,
        )
        refl
