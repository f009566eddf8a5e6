-- ===== src/Onboarding/Examples.antt =====
-- First runs: their links, what an account stores of them, and a guest's record.
use stseen.Dashboard.Query.{dedupe, is_uuid, hex_groups, parse_dashboard_filters}
use stseen.Dashboard.Query.Link.{values_of}
use stseen.Onboarding.{
  OnboardingAnswers, string, other, RawAnswers, clean_answers, parse_onboarding_answers,
  has_any_answer, welcome_href, answers_to_filters, browse_href, disciplines_for_fields,
  answers_from_preferences, ready, not_configured, unreachable, plan_outcome, first_run_pending,
}
use stseen.Onboarding.Browse.{parse_dashboard_filters-browse_href}
use stseen.Onboarding.Guest.{
  Stored, object, parse_guest_onboarding, read_guest_onboarding, write_guest_onboarding, answering,
  reached_payoff, should_carry_over, has_guest_answers, complete_request, OrNone,
  parse_guest_onboarding-IsClean,
}
use stseen.Onboarding.Laws.{IsClean, parse_onboarding_answers-welcome_href}
use stseen.Onboarding.Route.{
  FactRow, RunReads, RunEffect, save_completed, follow_companies, follow_roles, ask_plan, RunBody,
  complete, completed, error, has_row, finish_first_run, post_onboarding,
}
use stseen.Onboarding.Route.Follows.{ReadsTrue, IsDue, finish_first_run-IsDue}
use stseen.Onboarding.Stored.{answers_from_preferences-disciplines_for_fields}
use stseen.Onboarding.Tables.{new_grad, FieldValue, software_engineering}
use stseen.Prelude.{
  ◌≡◌, refl, ap, Bool, true, false, [], ◌∷◌, Option, none, some, length, Text, codes, arith, any,
  text_eq, All, ℕ, List,
}
use stseen.Prelude.Int.{pos}
use stseen.Prelude.Words.{digits_value, digits_value-decimal}

abbrev same : Text → Text
same t = t

abbrev answers : OnboardingAnswers
answers = record {
  looking_for = some new_grad;
  fields = FieldValue.data_field ∷ FieldValue.other_engineering ∷ [];
  companies = codes "0f8fad5b-d9cb-469f-a165-70867728950e" ∷ [];
}

abbrev raw : RawAnswers
raw = record {
  looking_for = string (codes "anything");
  fields = some (string (codes "design") ∷ other ∷ string (codes "data") ∷ []);
  companies = none;
}

clean_answers_test : clean_answers same raw ≡ record {
  looking_for = none;
  fields = FieldValue.data_field ∷ FieldValue.design ∷ [];
  companies = [];
}
unfolding clean_answers dedupe
clean_answers_test = refl

welcome_href_test :
    welcome_href true (record answers { companies = [] })
    ≡ (codes "step", codes "ready")
      ∷ (codes "for", codes "new_grad")
      ∷ (codes "field", codes "data")
      ∷ (codes "field", codes "other_engineering")
      ∷ []
unfolding welcome_href
welcome_href_test = refl

plan_outcome_test :
    (plan_outcome 503 none ≡ unreachable)
    × (plan_outcome 503 (some (codes "readiness_api_unavailable")) ≡ not_configured)
    × (first_run_pending none none 0 ≡ true)
    × (has_any_answer answers ≡ true)
unfolding plan_outcome first_run_pending has_any_answer
plan_outcome_test = (refl, refl, refl, refl)

-- A storage that is full, and one that holds the record of a guest who asked to save it.
abbrev kept : Text → Option Stored
kept t = some (object true raw (string (codes "2026-11-26")) true)

guest_tests :
    (should_carry_over (
        read_guest_onboarding same
          (λ t. true)
          kept
          (λ (s : Text). some (some s))
          (some (codes "{}")))
      ≡ true)
    × (should_carry_over (
          read_guest_onboarding same
            (λ t. false)
            kept
            (λ (s : Text). some (some s))
            (some (codes "{}")))
        ≡ false)
    × ((write_guest_onboarding
          (λ r. codes "{}")
          (λ t (s : Text). none)
          (some [])
          (reached_payoff answers (codes "2026-11-26") true)).1
        ≡ false)
    × (has_guest_answers (some (answering answers none)) ≡ false)
    × (length (complete_request answers (codes "a" ∷ codes "a" ∷ [])).role_ids ≡ 1)
unfolding read_guest_onboarding parse_guest_onboarding write_guest_onboarding answering
    reached_payoff should_carry_over has_guest_answers complete_request dedupe clean_answers
guest_tests = (refl, refl, refl, refl, refl)

parse_onboarding_answers-welcome_href_example :
    parse_onboarding_answers same (values_of (welcome_href true answers)) ≡ answers
unfolding is_uuid hex_groups dedupe
parse_onboarding_answers-welcome_href_example =
    parse_onboarding_answers-welcome_href same true answers
      (refl, ((refl, refl), tt), refl, omega arith)

answers_from_preferences-disciplines_for_fields_example :
    (answers_from_preferences same (disciplines_for_fields answers.fields)).fields ≡ answers.fields
answers_from_preferences-disciplines_for_fields_example =
    answers_from_preferences-disciplines_for_fields same answers.fields refl

parse_dashboard_filters-browse_href_example :
    parse_dashboard_filters
      (λ t. some (digits_value 0 t))
      (λ t. some (pos (digits_value 0 t)))
      same
      (values_of (browse_href answers))
    ≡ answers_to_filters answers
parse_dashboard_filters-browse_href_example =
    parse_dashboard_filters-browse_href (λ t. some (digits_value 0 t))
      (λ t. some (pos (digits_value 0 t))) same (λ n h. ap some (digits_value-decimal n))
      (λ n h. ap (λ m. some (pos m)) (digits_value-decimal n)) answers

parse_guest_onboarding-IsClean_example :
    OrNone
      (λ r. IsClean same r.answers × (should_carry_over (some r) ≡ r.pending_save))
      (parse_guest_onboarding same (λ t. true) kept (some (codes "{}")))
parse_guest_onboarding-IsClean_example =
    parse_guest_onboarding-IsClean same (λ t h. h) (λ t. refl) (λ t. true) kept (some (codes "{}"))

abbrev companies_there : List Text
companies_there = codes "acme" ∷ codes "globex" ∷ []

abbrev roles_there : List FactRow
roles_there =
    record { role_id = codes "r1"; forecastable = false; window_end = none }
    ∷ record { role_id = codes "r2"; forecastable = true; window_end = some (codes "2026-09-01") }
    ∷ []

-- The visitor follows the company globex and the role r1.
abbrev reads : RunReads
reads = record {
  known_companies = λ asked. some companies_there;
  followed_companies = λ asked. some (codes "globex" ∷ []);
  role_facts = λ asked. some roles_there;
  followed_roles = λ asked. some (codes "r1" ∷ []);
}

abbrev always : RunEffect → Bool
always effect = true

abbrev planned : Text → ℕ × Option Text
planned id = (200, none)

abbrev first_run : RunBody
first_run =
    complete (software_engineering ∷ []) (codes "acme" ∷ codes "globex" ∷ codes "other" ∷ [])
      (codes "r1" ∷ codes "r2" ∷ codes "r3" ∷ [])

first_run_tests :
    (finish_first_run reads always planned same (codes "2026-05-01") first_run ≡ (
      save_completed (disciplines_for_fields (software_engineering ∷ []))
          ∷ follow_companies (codes "acme" ∷ [])
          ∷ follow_roles (codes "r2" ∷ [])
          ∷ ask_plan (codes "r2")
          ∷ [],
      completed 2 (some ready) (codes "/roles/r2?welcome=ready"),
    ))
    × ((finish_first_run reads (λ e. false) planned same (codes "2026-05-01") first_run).1
        ≡ error 500 (codes "onboarding_save_failed"))
    × ((post_onboarding true true true none
          (finish_first_run reads always planned same (codes "2026-05-01"))).1
        ≡ error 400 (codes "invalid_onboarding_request"))
unfolding finish_first_run post_onboarding dedupe plan_outcome disciplines_for_fields
first_run_tests = (refl, refl, refl)

reads-True :
    ReadsTrue reads
      (λ id. any (text_eq id) companies_there)
      (has_row roles_there)
      (λ id. any (text_eq id) (codes "globex" ∷ []))
      (λ id. any (text_eq id) (codes "r1" ∷ []))
reads-True = record {
  companies = λ asked found id h m. cc;
  roles = λ asked rows id h m. cc;
  company_follows = λ asked found id h k m. cc;
  role_follows = λ asked found id h k m. cc;
}

finish_first_run-IsDue_example :
    All
      (IsDue reads always planned same
        (codes "2026-05-01")
        (λ id. any (text_eq id) companies_there)
        (has_row roles_there)
        (λ id. any (text_eq id) (codes "globex" ∷ []))
        (λ id. any (text_eq id) (codes "r1" ∷ []))
        reads-True)
      (finish_first_run reads always planned same (codes "2026-05-01") first_run).0
finish_first_run-IsDue_example =
    finish_first_run-IsDue reads always planned same (codes "2026-05-01")
      (λ id. any (text_eq id) companies_there) (has_row roles_there)
      (λ id. any (text_eq id) (codes "globex" ∷ [])) (λ id. any (text_eq id) (codes "r1" ∷ []))
      reads-True first_run
