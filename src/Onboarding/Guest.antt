-- ===== src/Onboarding/Guest.antt =====
-- A guest's answers in the browser's storage (apps/web/lib/guest-onboarding.ts).
use stseen.Dashboard.Query.{dedupe, is_uuid}
use stseen.Onboarding.{
  OnboardingAnswers, Unknown, string, other, RawAnswers, clean_answers, has_any_answer, is_absent,
}
use stseen.Onboarding.Laws.{IsClean, clean_answers-IsClean}
use stseen.Onboarding.Tables.{LookingFor, FieldValue}
use stseen.Prelude.{
  ◌≡◌, Bool, true, false, not, ◌&&◌, List, [], ◌∷◌, Option, none, some, take, if◌then◌else◌, Text,
  arith,
}

pub record GuestOnboarding : Type 0 where
  pub answers : OnboardingAnswers
  pub completed_at : Option Text
  pub pending_save : Bool

-- A value that `JSON.parse` returns: no object, or an object with whether its `version` is 1, its
-- parts and whether its `pendingSave` is `true`.
pub data Stored : Type 0 where
  no_object : Stored
  object : Bool → RawAnswers → Unknown → Bool → Stored

-- `is_date` tells whether `Date.parse` takes a text for a date.
module _ (lower : Text → Text) (is_date : Text → Bool) where
  abbrev date_of : Unknown → Option Text
  date_of other = none
  date_of (string t) = if is_date t then some t else none

  abbrev pub of_value : Stored → Option GuestOnboarding
  of_value no_object = none
  of_value (object false raw completed pending) = none
  of_value (object true raw completed pending) = some record {
    answers = clean_answers lower raw;
    completed_at = date_of completed;
    pending_save = pending && not (is_absent (date_of completed));
  }

  abbrev pub of_parsed : Option Stored → Option GuestOnboarding
  of_parsed none = none
  of_parsed (some value) = of_value value

  -- `parseGuestOnboarding`; `parse_json` is none where `JSON.parse` throws.
  unfoldable pub parse_guest_onboarding :
      (Text → Option Stored) → Option Text → Option GuestOnboarding
  parse_guest_onboarding parse_json none = none
  parse_guest_onboarding parse_json (some []) = none
  parse_guest_onboarding parse_json (some (c ∷ raw)) = of_parsed (parse_json (c ∷ raw))

  -- `readGuestOnboarding` of a storage whose item under the key is `item`; it is none where reading
  -- throws.
  unfoldable pub read_guest_onboarding :
      {S : Type 0}
      → (Text → Option Stored)
      → (S → Option (Option Text))
      → Option S
      → Option GuestOnboarding
  unfolding parse_guest_onboarding
  read_guest_onboarding parse_json item none = none
  read_guest_onboarding parse_json item (some storage) = elim (item storage) [
    | none ↦ none
    | some raw ↦ parse_guest_onboarding parse_json raw
  ]

-- `writeGuestOnboarding`: the storage after it, and whether the record was written. `set` is none
-- where the storage refuses.
unfoldable pub write_guest_onboarding :
    {S : Type 0}
    → (GuestOnboarding → Text)
    → (Text → S → Option S)
    → Option S
    → GuestOnboarding
    → Option S × Bool
write_guest_onboarding stringify set none r = (none, false)
write_guest_onboarding stringify set (some storage) r = elim (set (stringify r) storage) [
  | none ↦ (some storage, false)
  | some written ↦ (some written, true)
]

abbrev completed_of : Option GuestOnboarding → Option Text
completed_of none = none
completed_of (some r) = r.completed_at

-- `answering`
unfoldable pub answering : OnboardingAnswers → Option GuestOnboarding → GuestOnboarding
answering answers previous = record {
  answers = answers;
  completed_at = completed_of previous;
  pending_save = false;
}

-- `reachedPayoff`
unfoldable pub reached_payoff : OnboardingAnswers → Text → Bool → GuestOnboarding
reached_payoff answers now pending_save = record {
  answers = answers;
  completed_at = some now;
  pending_save = pending_save;
}

-- `shouldCarryOver`
unfoldable pub should_carry_over : Option GuestOnboarding → Bool
should_carry_over none = false
should_carry_over (some r) = r.pending_save && not (is_absent r.completed_at)

-- `hasGuestAnswers`
unfoldable pub has_guest_answers : Option GuestOnboarding → Bool
unfolding has_any_answer
has_guest_answers none = false
has_guest_answers (some r) = not (is_absent r.completed_at) && has_any_answer r.answers

pub record CompleteRequest : Type 0 where
  pub looking_for : Option LookingFor
  pub fields : List FieldValue
  pub companies : List Text
  pub role_ids : List Text

-- `completeRequest`
unfoldable pub complete_request : OnboardingAnswers → List Text → CompleteRequest
unfolding dedupe
complete_request answers role_ids = record {
  looking_for = answers.looking_for;
  fields = answers.fields;
  companies = answers.companies;
  role_ids = take 12 (dedupe [] role_ids);
}

abbrev pub OrNone : (GuestOnboarding → Type 0) → Option GuestOnboarding → Type 0
OrNone P none = Unit
OrNone P (some r) = P r

module _ (lower : Text → Text)
    (lower-is_uuid : (t : Text) → is_uuid t ≡ true → is_uuid (lower t) ≡ true)
    (lower-lower : (t : Text) → lower (lower t) ≡ lower t) (is_date : Text → Bool)
    (parse_json : Text → Option Stored) where
  abbrev IsUsable : GuestOnboarding → Type 0
  IsUsable r = IsClean lower r.answers × (should_carry_over (some r) ≡ r.pending_save)

  of_value-IsUsable : (value : Stored) → OrNone IsUsable (of_value lower is_date value)
  unfolding should_carry_over
  of_value-IsUsable no_object = tt
  of_value-IsUsable (object false raw completed pending) = tt
  of_value-IsUsable (object true raw completed pending) =
      (clean_answers-IsClean lower lower-is_uuid lower-lower raw, ground arith)

  of_parsed-IsUsable : (o : Option Stored) → OrNone IsUsable (of_parsed lower is_date o)
  of_parsed-IsUsable none = tt
  of_parsed-IsUsable (some value) = of_value-IsUsable value

  -- Whatever the storage holds, the record that is read from it has cleaned answers, and it is
  -- carried over into an account exactly where its mark to be saved is set.
  pub parse_guest_onboarding-IsClean :
      (raw : Option Text)
      → OrNone
          (λ r. IsClean lower r.answers × (should_carry_over (some r) ≡ r.pending_save))
          (parse_guest_onboarding lower is_date parse_json raw)
  unfolding parse_guest_onboarding
  parse_guest_onboarding-IsClean none = tt
  parse_guest_onboarding-IsClean (some []) = tt
  parse_guest_onboarding-IsClean (some (c ∷ raw)) = of_parsed-IsUsable (parse_json (c ∷ raw))
