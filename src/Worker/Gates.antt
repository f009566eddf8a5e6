-- ===== src/Worker/Gates.antt =====
-- What reaches the app.
use stseen.Limiter.Allowance.{
  Namespace, GuestDecision, guest_agent_allowance, auth_limit_allowance, AuthKind, attempt,
  verification, AuthDecision, client_of, auth_key,
}
use stseen.Limiter.Allowance.Laws.{limit_key-success}
use stseen.Limiter.Window.{take-allowed_iff}
use stseen.Prelude.{
  ◌+◌, ◌++◌, ◌||◌, leb, ltb, count, ℕ, ◌≡◌, ◌∙◌, refl, Bool, true, false, ◌&&◌, Option, none, some,
  List, Text, codes, text_eq, text_eq→eq, arith, Bool-cases, Option-cases, inl, inr, if◌then◌else◌,
}
use stseen.Worker.{
  WorkerRequest, front_door_redirect, auth_route, is_guest_question, Verdict, image, redirect,
  auth_refused, guest_refused, render, guest_gate, auth_gate, admit, guest_verdict,
}

question-is_post : (r : WorkerRequest) → is_guest_question r ≡ true → r.method ≡ codes "POST"
question-is_post r h = text_eq→eq r.method (codes "POST") (ground arith)

question-path :
    (r : WorkerRequest) → is_guest_question r ≡ true → r.pathname ≡ codes "/api/recruiting-agent"
question-path r h = text_eq→eq r.pathname (codes "/api/recruiting-agent") (ground arith)

question-no_redirect :
    (r : WorkerRequest) → is_guest_question r ≡ true → front_door_redirect r ≡ none
unfolding front_door_redirect
question-no_redirect r h = rw (question-is_post r h) refl

question-no_route : (r : WorkerRequest) → is_guest_question r ≡ true → auth_route r ≡ none
unfolding auth_route
question-no_route r h = rw (question-is_post r h, question-path r h) refl

question-no_image :
    (r : WorkerRequest)
    → is_guest_question r ≡ true
    → text_eq r.pathname (codes "/_vinext/image") ≡ false
question-no_image r h = rw (question-path r h) refl

-- A signed-out question passes the guests' limits and no other gate.
pub admit-question :
    (o : Option Namespace) (now : ℕ) (r : WorkerRequest)
    → is_guest_question r ≡ true
    → admit o now r
      ≡ (let (o', decision) = guest_agent_allowance o now r.address in (o', guest_verdict decision))
unfolding admit auth_gate guest_gate
admit-question o now r h =
    rw (question-no_image r h, question-no_redirect r h, question-no_route r h, auth_gate)
      (rw (h, guest_gate) refl)

-- The guest header with which the app sees a request, if the app sees it with one.
abbrev pub header_of : Verdict → Option Text
header_of image = none
header_of (redirect query) = none
header_of (auth_refused seconds) = none
header_of (guest_refused reason) = none
header_of (render guest_agent) = guest_agent

abbrev pub is_allowed : GuestDecision → Bool
is_allowed GuestDecision.allow = true
is_allowed (GuestDecision.refuse reason) = false

pub header-other :
    (o : Option Namespace) (now : ℕ) (r : WorkerRequest)
    → is_guest_question r ≡ false
    → header_of (admit o now r).1 ≡ none
unfolding admit auth_gate guest_gate
header-other o now r h = ground arith

-- Whatever header the client sends, the app is told that a request passed the guests' limits
-- exactly when it is a signed-out question that passed them.
pub admit-guest_header :
    (o : Option Namespace) (now : ℕ) (r : WorkerRequest)
    → header_of (admit o now r).1 ≡ (
        if is_guest_question r && is_allowed (guest_agent_allowance o now r.address).1
        then some (codes "allowed")
        else none)
admit-guest_header o now r = elim (Bool-cases (is_guest_question r)) [
  | inl h ↦ rw (admit-question o now r h, h) (ground arith)
  | inr h ↦ header-other o now r h ∙ rw h refl
]

abbrev pub is_auth_refusal : Verdict → Bool
is_auth_refusal (auth_refused seconds) = true
is_auth_refusal _ = false

abbrev is_refusal : AuthDecision → Bool
is_refusal AuthDecision.allow = false
is_refusal (AuthDecision.refuse seconds) = true

abbrev refuses_auth : Option AuthKind → Option Namespace → ℕ → WorkerRequest → Bool
refuses_auth none o now r = false
refuses_auth (some kind) o now r = is_refusal (auth_limit_allowance o now kind r.address).1

-- Whether twelve tries that the object of a key has counted are less than five minutes old.
abbrev pub is_spent : Option Namespace → ℕ → Text → Bool
is_spent none now key = false
is_spent (some ns) now key = leb 12 (count (λ at. ltb now (at + 300000)) (ns key).hits)

abbrev pub is_attempt_path : Text → Bool
is_attempt_path path =
    text_eq path (codes "/api/auth/sign-in")
    || text_eq path (codes "/api/auth/sign-up")
    || text_eq path (codes "/api/auth/forgot")
    || text_eq path (codes "/api/auth/resend")

abbrev pub is_link_path : Text → Bool
is_link_path path =
    text_eq path (codes "/api/auth/confirm") || text_eq path (codes "/api/auth/recovery")

-- A post to a limited route whose share for the address is spent.
abbrev pub is_try_too_many : Option Namespace → ℕ → WorkerRequest → Bool
is_try_too_many o now r =
    text_eq r.method (codes "POST")
    && (if is_attempt_path r.pathname
        then is_spent o now (codes "auth-attempt:" ++ client_of r.address)
        else is_link_path r.pathname
          && is_spent o now (codes "auth-verification:" ++ client_of r.address))

refusal-is_spent :
    (o : Option Namespace) (now : ℕ) (kind : AuthKind) (ip : Option Text)
    → is_refusal (auth_limit_allowance o now kind ip).1
      ≡ is_spent o now (auth_key kind (client_of ip))
unfolding auth_limit_allowance
refusal-is_spent none now kind ip = refl
refusal-is_spent (some ns) now kind ip = ground (
  arith,
  limit_key-success 12 300 ns now (auth_key kind (client_of ip)) (omega arith) (omega arith),
  take-allowed_iff (ns (auth_key kind (client_of ip))).hits now 12 300000,
)

refuses_auth-is_try_too_many :
    (o : Option Namespace) (now : ℕ) (r : WorkerRequest)
    → refuses_auth (auth_route r) o now r ≡ is_try_too_many o now r
unfolding auth_route
refuses_auth-is_try_too_many o now r =
    ground (
      arith,
      refusal-is_spent o now attempt r.address,
      refusal-is_spent o now verification r.address,
    )

image-no_route :
    (r : WorkerRequest) → text_eq r.pathname (codes "/_vinext/image") ≡ true → auth_route r ≡ none
unfolding auth_route
image-no_route r h = rw (text_eq→eq r.pathname (codes "/_vinext/image") h) (ground arith)

redirect-no_route :
    (r : WorkerRequest) (query : List (Text × Text))
    → front_door_redirect r ≡ some query
    → auth_route r ≡ none
unfolding front_door_redirect auth_route
redirect-no_route r query h = elim (Bool-cases (text_eq r.method (codes "GET"))) [
  | inl e ↦ rw (text_eq→eq r.method (codes "GET") e) refl
  | inr e ↦ absurd (ground arith)
]

-- A request is refused as one try too many exactly when it is a post to a limited route and at
-- least twelve tries of that kind that were counted for its address are less than five minutes old:
-- sign-ins, sign-ups, reset requests and resends together, or confirmations and recoveries. With no
-- limiter none is.
pub admit-auth_refusal :
    (o : Option Namespace) (now : ℕ) (r : WorkerRequest)
    → is_auth_refusal (admit o now r).1 ≡ is_try_too_many o now r
unfolding admit auth_gate guest_gate
admit-auth_refusal o now r = elim (Option-cases (front_door_redirect r)) [
  | inl f ↦ ground (arith, image-no_route r) ∙ refuses_auth-is_try_too_many o now r
  | inr (query, f) ↦
      ground (arith, image-no_route r, redirect-no_route r query f)
      ∙ refuses_auth-is_try_too_many o now r
]
