-- ===== src/Worker/Histories.antt =====
-- Requests over time, signed in or not, all passing through one limiter namespace.
use native.Mathlib.Nat.{le_trans}
use stseen.Limiter.Allowance.{
  Namespace, GuestDecision, GuestDecision.allow, GuestDecision.refuse, guest_agent_allowance,
  auth_limit_allowance, client_of, AuthDecision,
}
use stseen.Limiter.Allowance.Laws.{guest_period_ms}
use stseen.Limiter.Allowance.Histories.{
  Question, IsTimeline, guest_grants, granted, fresh, times, guest_grants-in_window,
}
use stseen.Limiter.Allowance.Separate.{
  Agree, guest_agent_allowance-Agree, auth_limit_allowance-Agree,
}
use stseen.Limiter.Object.{in_window}
use stseen.Worker.{
  WorkerRequest, is_guest_question, guest_verdict, auth_route, auth_gate, guest_gate, admit,
  front_door_redirect, after_auth,
}
use stseen.Worker.Gates.{admit-question, header_of, header-other}
use stseen.Prelude.{
  ℕ, ◌≤◌, ◌≡◌, refl, ◌∙◌, ap, false, ◌&&◌, List, [], ◌∷◌, ◌++◌, Option, none, some, if◌then◌else◌,
  count, Text, codes, text_eq, Bool-cases, Option-cases, inl, inr,
}

-- When a request comes, and what it is.
abbrev pub Visit : Type 0
Visit = ℕ × WorkerRequest

abbrev pub IsOrdered : ℕ → List Visit → Type 0
IsOrdered now [] = Unit
IsOrdered now ((at, r) ∷ rs) = (now ≤ at) × IsOrdered at rs

abbrev log_of : ℕ → Text → Option Text → List (ℕ × Text)
log_of at client none = []
log_of at client (some header) = (at, client) ∷ []

-- The requests that the app sees with the guest header, in order, each with its client.
unfoldable pub guests_seen : Option Namespace → List Visit → List (ℕ × Text)
guests_seen o [] = []
guests_seen o ((at, r) ∷ rs) =
    let (o', verdict) = admit o at r in
    log_of at (client_of r.address) (header_of verdict) ++ guests_seen o' rs

-- The signed-out questions among the requests.
unfoldable questions_of : List Visit → List Question
questions_of [] = []
questions_of ((at, r) ∷ rs) =
    if is_guest_question r then (at, r.address) ∷ questions_of rs else questions_of rs

log_of-verdict :
    (at : ℕ) (client : Text) (d : GuestDecision)
    → log_of at client (header_of (guest_verdict d)) ≡ granted at client d
log_of-verdict at client allow = refl
log_of-verdict at client (refuse reason) = refl

after_auth-namespace :
    (o : Option Namespace) (d : AuthDecision) (now : ℕ) (r : WorkerRequest)
    → is_guest_question r ≡ false
    → (after_auth (o, d) now r).0 ≡ o
unfolding guest_gate
after_auth-namespace o AuthDecision.allow now r h = rw h refl
after_auth-namespace o (AuthDecision.refuse seconds) now r h = refl

-- A request that is no signed-out question leaves what guests are counted by as it was.
auth_gate-Agree :
    (ns : Namespace) (now : ℕ) (r : WorkerRequest)
    → is_guest_question r ≡ false
    → (ns' : Namespace) × ((auth_gate (some ns) now r).0 ≡ some ns') × Agree ns' ns
unfolding auth_gate guest_gate
auth_gate-Agree ns now r h = elim (Option-cases (auth_route r)) [
  | inl e ↦ (ns, rw (e, auth_gate) (rw (h, guest_gate) refl), (λ client. refl, refl))
  | inr (kind, e) ↦
      let (ns', eq, agree) = auth_limit_allowance-Agree ns now kind r.address in
      let run = auth_limit_allowance (some ns) now kind r.address in
      (ns', rw (e, auth_gate) (after_auth-namespace run.0 run.1 now r h ∙ eq), agree)
]

admit-Agree :
    (ns : Namespace) (now : ℕ) (r : WorkerRequest)
    → is_guest_question r ≡ false
    → (ns' : Namespace) × ((admit (some ns) now r).0 ≡ some ns') × Agree ns' ns
unfolding admit
admit-Agree ns now r h = elim (Bool-cases (text_eq r.pathname (codes "/_vinext/image"))) [
  | inl e ↦ (ns, rw e refl, (λ client. refl, refl))
  | inr e ↦ elim (Option-cases (front_door_redirect r)) [
    | inl f ↦ let (ns', eq, agree) = auth_gate-Agree ns now r h in (ns', rw (e, f) eq, agree)
    | inr (query, f) ↦ (ns, rw (e, f) refl, (λ client. refl, refl))
  ]
]

Agree-trans : (a b c : Namespace) → Agree a b → Agree b c → Agree a c
Agree-trans a b c h k = (λ client. h.0 client ∙ k.0 client, h.1 ∙ k.1)

-- Only the signed-out questions matter to what guests are granted.
guests_seen-questions :
    (ns ms : Namespace) (rs : List Visit)
    → Agree ns ms
    → guests_seen (some ns) rs ≡ guest_grants (some ms) (questions_of rs)
unfolding guests_seen guest_grants questions_of
guests_seen-questions ns ms [] a = refl
guests_seen-questions ns ms ((at, r) ∷ rs) a = elim (Bool-cases (is_guest_question r)) [
  | inl h ↦
      let (ns', ms', e, e', a', d) = guest_agent_allowance-Agree ns ms at r.address a in
      rw (h, admit-question (some ns) at r h, e, e', d, log_of-verdict at (client_of r.address))
        (ap
          (λ t.
            granted at (client_of r.address) (guest_agent_allowance (some ms) at r.address).1 ++ t)
          (guests_seen-questions ns' ms' rs a'))
  | inr h ↦
      let (ns', e, a') = admit-Agree ns at r h in
      rw (h, header-other (some ns) at r h, e)
        (guests_seen-questions ns' ms rs (Agree-trans ns' ns ms a' a))
]

IsTimeline-earlier :
    (now later : ℕ) (qs : List Question) → now ≤ later → IsTimeline later qs → IsTimeline now qs
IsTimeline-earlier now later [] h k = k
IsTimeline-earlier now later ((at, ip) ∷ qs) h k = (le_trans h k.0, k.1)

questions_of-IsTimeline :
    (now : ℕ) (rs : List Visit) → IsOrdered now rs → IsTimeline now (questions_of rs)
unfolding questions_of
questions_of-IsTimeline now [] o = tt
questions_of-IsTimeline now ((at, r) ∷ rs) o = elim (Bool-cases (is_guest_question r)) [
  | inl h ↦ rw h (o.0, questions_of-IsTimeline at rs o.1)
  | inr h ↦
      rw h (IsTimeline-earlier now at (questions_of rs) o.0 (questions_of-IsTimeline at rs o.1))
]

-- Whatever requests come, at times that do not decrease and with limiter objects not asked before:
-- in every sixty seconds the app is told of at most ten guests' questions, and of at most five from
-- each address.
pub guests_seen-in_window :
    (rs : List Visit)
    → IsOrdered 0 rs
    → (t : ℕ)
    → let log = guests_seen (some fresh) rs in
      (count (in_window guest_period_ms t) (times log) ≤ 10)
      × ((c : Text) → count (λ g. text_eq g.1 c && in_window guest_period_ms t g.0) log ≤ 5)
guests_seen-in_window rs o t =
    rw (guests_seen-questions fresh fresh rs (λ client. refl, refl))
      (guest_grants-in_window (questions_of rs) (questions_of-IsTimeline 0 rs o) t)
