-- ===== src/Worker.antt =====
-- The gates that a request passes before the app sees it: apps/web/cloudflare/index.ts, with
-- front-door.ts and the session cookie of guest-cache.ts.
pub mod Gates
pub mod Histories
mod Examples
use stseen.Limiter.Allowance.{
  Namespace, AuthKind, attempt, verification, AuthDecision, auth_limit_allowance, Refused,
  GuestDecision, guest_agent_allowance,
}
use stseen.Prelude.{
  ℕ, Bool, true, false, not, ◌&&◌, ◌||◌, List, [], ◌∷◌, Option, none, some, if◌then◌else◌, ◌==◌,
  any, filter, head?, Text, codes, text_eq, starts_with, includes,
}
use stseen.Prelude.Words.{trim, split_on}

-- What the gates read of a request. The query is the list of `searchParams`; `guest_agent` is the
-- header of that name that the client sends.
pub record WorkerRequest : Type 0 where
  pub method : Text
  pub pathname : Text
  pub query : List (Text × Text)
  pub cookie : Option Text
  pub address : Option Text
  pub rsc : Bool
  pub guest_agent : Option Text

abbrev first_part : Text → Text
first_part part = elim (split_on 61 part) [ [] ↦ [] | name ∷ rest ↦ name ]

abbrev is_session : Text → Bool
is_session part =
    let name = first_part (trim part) in
    starts_with name (codes "sb-") && includes name (codes "-auth-token")

-- `hasSessionCookie`
unfoldable pub has_session_cookie : Option Text → Bool
has_session_cookie none = false
has_session_cookie (some header) = any is_session (split_on 59 header)

-- `DASHBOARD_PARAMS`
abbrev pub dashboard_params : List Text
dashboard_params =
    codes "q"
    ∷ codes "discipline"
    ∷ codes "company"
    ∷ codes "type"
    ∷ codes "season"
    ∷ codes "year"
    ∷ codes "window"
    ∷ codes "confidence"
    ∷ codes "cycles"
    ∷ codes "precision"
    ∷ codes "location"
    ∷ codes "listed"
    ∷ codes "watched"
    ∷ codes "sort"
    ∷ codes "page"
    ∷ codes "welcome"
    ∷ []

abbrev is_dashboard_param : Text × Text → Bool
is_dashboard_param (key, value) = any (text_eq key) dashboard_params

abbrev pub has_key : Text → List (Text × Text) → Bool
has_key key = any (λ p. text_eq p.0 key)

-- `frontDoorRedirect`: the query with which the visitor goes to the roles view.
unfoldable pub front_door_redirect : WorkerRequest → Option (List (Text × Text))
front_door_redirect r =
    if not (text_eq r.method (codes "GET")) || not (has_session_cookie r.cookie)
    then none
    else if not (text_eq r.pathname (codes "/")) || r.rsc || has_key (codes "_rsc") r.query
    then none
    else some (filter is_dashboard_param r.query)

-- `AUTH_LIMITED_ROUTES`
abbrev auth_limited_routes : List (Text × AuthKind)
auth_limited_routes =
    (codes "/api/auth/sign-in", attempt)
    ∷ (codes "/api/auth/sign-up", attempt)
    ∷ (codes "/api/auth/forgot", attempt)
    ∷ (codes "/api/auth/resend", attempt)
    ∷ (codes "/api/auth/confirm", verification)
    ∷ (codes "/api/auth/recovery", verification)
    ∷ []

abbrev find_route : Text → List (Text × AuthKind) → Option AuthKind
find_route path [] = none
find_route path ((route, kind) ∷ routes) =
    if text_eq path route then some kind else find_route path routes

abbrev pub is_post : WorkerRequest → Bool
is_post r = text_eq r.method (codes "POST")

-- `authRoute`
unfoldable pub auth_route : WorkerRequest → Option AuthKind
auth_route r = if is_post r then find_route r.pathname auth_limited_routes else none

-- A signed-out question to the agent.
abbrev pub is_guest_question : WorkerRequest → Bool
is_guest_question r =
    is_post r
    && text_eq r.pathname (codes "/api/recruiting-agent")
    && not (has_session_cookie r.cookie)

-- What the gates decide. `render` hands the request to the app, with the guest header as given.
pub data Verdict : Type 0 where
  image : Verdict
  redirect : (query : List (Text × Text)) → Verdict
  auth_refused : (retry_after_seconds : ℕ) → Verdict
  guest_refused : Refused → Verdict
  render : (guest_agent : Option Text) → Verdict

abbrev guest_verdict : GuestDecision → Verdict
guest_verdict GuestDecision.allow = render (some (codes "allowed"))
guest_verdict (GuestDecision.refuse reason) = guest_refused reason

-- The gate of the agent's route; the client's own header is dropped.
unfoldable pub guest_gate : Option Namespace → ℕ → WorkerRequest → Option Namespace × Verdict
guest_gate limiter now r =
    if is_guest_question r
    then (let (limiter', decision) = guest_agent_allowance limiter now r.address in
        (limiter', guest_verdict decision))
    else (limiter, render none)

abbrev after_auth : Option Namespace × AuthDecision → ℕ → WorkerRequest → Option Namespace × Verdict
after_auth (limiter, AuthDecision.allow) now r = guest_gate limiter now r
after_auth (limiter, AuthDecision.refuse seconds) now r = (limiter, auth_refused seconds)

-- The gate of the auth routes, passed where there is no limiter.
unfoldable pub auth_gate : Option Namespace → ℕ → WorkerRequest → Option Namespace × Verdict
unfolding guest_gate
auth_gate limiter now r = elim (auth_route r) [
  | none ↦ guest_gate limiter now r
  | some kind ↦ after_auth (auth_limit_allowance limiter now kind r.address) now r
]

-- `worker.fetch`, up to the rendering of the page.
unfoldable pub admit : Option Namespace → ℕ → WorkerRequest → Option Namespace × Verdict
unfolding auth_gate
admit limiter now r =
    if text_eq r.pathname (codes "/_vinext/image")
    then (limiter, image)
    else elim (front_door_redirect r) [
      | some query ↦ (limiter, redirect query)
      | none ↦ auth_gate limiter now r
    ]
