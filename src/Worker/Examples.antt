-- ===== src/Worker/Examples.antt =====
-- Requests to the worker, and the theorems at them.
use stseen.Limiter.Allowance.{Namespace, guest_agent_allowance}
use stseen.Limiter.Allowance.Laws.{guest_period_ms}
use stseen.Limiter.Allowance.Histories.{fresh, times}
use stseen.Limiter.Object.{in_window}
use stseen.Worker.{
  WorkerRequest, has_session_cookie, front_door_redirect, auth_route, is_guest_question, render,
  redirect, admit,
}
use stseen.Worker.Gates.{
  header_of, is_allowed, is_auth_refusal, is_try_too_many, admit-guest_header, admit-auth_refusal,
}
use stseen.Worker.Histories.{Visit, guests_seen, guests_seen-in_window}
use stseen.Prelude.{
  ◌≤◌, ◌≡◌, refl, true, false, ◌&&◌, List, [], ◌∷◌, none, some, if◌then◌else◌, count, Text, codes,
  text_eq, arith,
}
use stseen.Prelude.Words.{trim, is_space}

abbrev question : WorkerRequest
question = record {
  method = codes "POST";
  pathname = codes "/api/recruiting-agent";
  query = [];
  cookie = some (codes "theme=dark");
  address = some (codes "10.0.0.1");
  rsc = false;
  guest_agent = some (codes "allowed");
}

-- The same from a signed-in visitor, and a visit of the front page.
abbrev signed_in : WorkerRequest
signed_in = record question { cookie = some (codes "a=b; sb-x-auth-token.0=y") }

abbrev home : WorkerRequest
home = record signed_in {
  method = codes "GET";
  pathname = codes "/";
  query = (codes "q", codes "nasa") ∷ (codes "utm", codes "x") ∷ [];
}

abbrev sign_in : WorkerRequest
sign_in = record question { pathname = codes "/api/auth/sign-in" }

has_session_cookie_tests :
    (has_session_cookie signed_in.cookie ≡ true) × (has_session_cookie question.cookie ≡ false)
unfolding has_session_cookie trim is_space
has_session_cookie_tests = (refl, refl)

admit_tests :
    ((admit none 0 signed_in).1 ≡ render none)
    × ((admit none 0 home).1 ≡ redirect ((codes "q", codes "nasa") ∷ []))
unfolding admit has_session_cookie trim is_space front_door_redirect auth_route
admit_tests = (refl, refl)

admit-guest_header_example : header_of (admit (some fresh) 1000 question).1 ≡ (
    if is_guest_question question
      && is_allowed (guest_agent_allowance (some fresh) 1000 question.address).1
    then some (codes "allowed")
    else none)
admit-guest_header_example = admit-guest_header (some fresh) 1000 question

-- Twelve tries of every key a moment ago.
abbrev busy : Namespace
busy key = record (fresh key) {
  hits = 900 ∷ 900 ∷ 900 ∷ 900 ∷ 900 ∷ 900 ∷ 900 ∷ 900 ∷ 900 ∷ 900 ∷ 900 ∷ 900 ∷ [];
}

busy_test :
    (is_try_too_many (some busy) 1000 sign_in ≡ true)
    × (is_try_too_many (some busy) 300900 sign_in ≡ false)
busy_test = (refl, refl)

admit-auth_refusal_example :
    is_auth_refusal (admit (some busy) 1000 sign_in).1 ≡ is_try_too_many (some busy) 1000 sign_in
admit-auth_refusal_example = admit-auth_refusal (some busy) 1000 sign_in

abbrev visits : List Visit
visits = (1000, question) ∷ (1000, sign_in) ∷ (2000, question) ∷ (2000, signed_in) ∷ []

guests_seen-in_window_example :
    let log = guests_seen (some fresh) visits in
    (count (in_window guest_period_ms 1500) (times log) ≤ 10)
    × ((c : Text) → count (λ g. text_eq g.1 c && in_window guest_period_ms 1500 g.0) log ≤ 5)
guests_seen-in_window_example =
    guests_seen-in_window visits (omega arith, (omega arith, (omega arith, (omega arith, tt)))) 1500
