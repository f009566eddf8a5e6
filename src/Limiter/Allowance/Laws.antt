-- ===== src/Limiter/Allowance/Laws.antt =====
-- What each allowance answers, and which limiter objects it changes.
use stseen.Limiter.{Limiter, is_recent, fetch, take_from_window}
use stseen.Limiter.Window.{take-allowed_iff}
use stseen.Limiter.Object.{request, fetch_lem}
use stseen.Limiter.Allowance.{
  Namespace, put, outcome, limit_key, address, overall, GuestDecision.allow, GuestDecision.refuse,
  AuthDecision, client_of, address_key, overall_key, check_overall, guest_agent_allowance, AuthKind,
  attempt, verification, auth_key, auth_limit_allowance,
}
use stseen.Prelude.{
  ℕ, ◌*◌, ◌<◌, ◌≤◌, ◌≡◌, ◌≢◌, refl, ◌↔◌, false, Option, some, arith, count, Text, text_eq,
  text_eq_iff, text_eq_refl, ne_of_text_eq, ap, ◌∙◌,
}

pub put_self : (ns : Namespace) (key : Text) (l : Limiter) → put ns key l key ≡ l
put_self ns key l = rw (text_eq_refl key)

pub put-other :
    (ns : Namespace) (key other : Text) (l : Limiter) → key ≢ other → put ns key l other ≡ ns other
put-other ns key other l h = ground (arith, text_eq_iff key other)

module _ (limit period_seconds : ℕ) (ns : Namespace) (now : ℕ) (key : Text) where
  -- A use of one key's limit changes no other key's object.
  pub limit_key-other :
      (other : Text) → key ≢ other → (limit_key limit period_seconds ns now key).0 other ≡ ns other
  unfolding limit_key
  limit_key-other other h = put-other ns key other _ h

  pub limit_key_self :
      (limit_key limit period_seconds ns now key).0 key
      ≡ (fetch (ns key) now (request limit (period_seconds * 1000))).0
  unfolding limit_key
  limit_key_self = put_self ns key _

  pub limit_key-outcome :
      (limit_key limit period_seconds ns now key).1
      ≡ outcome (fetch (ns key) now (request limit (period_seconds * 1000))).1
  unfolding limit_key
  limit_key-outcome = refl

  pub limit_key-success :
      1 ≤ limit
      → 1 ≤ period_seconds
      → (limit_key limit period_seconds ns now key).1.success
        ≡ (take_from_window (ns key).hits now limit (period_seconds * 1000)).allowed
  unfolding limit_key
  limit_key-success h k = rw (fetch_lem limit (period_seconds * 1000) h (omega arith) (ns key) now)

pub address_key-ne-overall_key : (client : Text) → address_key client ≢ overall_key
address_key-ne-overall_key client = ne_of_text_eq (address_key client) overall_key refl

pub address_key-ne : (c c' : Text) → text_eq c c' ≡ false → address_key c ≢ address_key c'
address_key-ne c c' h = ne_of_text_eq (address_key c) (address_key c') h

pub auth_key-injective :
    (kind kind' : AuthKind) (c c' : Text)
    → auth_key kind c ≡ auth_key kind' c'
    → (kind ≡ kind') × (c ≡ c')
auth_key-injective attempt attempt c c' e = (refl, cc)
auth_key-injective attempt verification c c' e =
    absurd (ne_of_text_eq (auth_key attempt c) (auth_key verification c') refl e)
auth_key-injective verification attempt c c' e =
    absurd (ne_of_text_eq (auth_key verification c) (auth_key attempt c') refl e)
auth_key-injective verification verification c c' e = (refl, cc)

abbrev pub guest_period_ms : ℕ
guest_period_ms = 60000

-- How many of an object's hits are recent.
abbrev pub recent_count : ℕ → Namespace → ℕ → Text → ℕ
recent_count period ns now key = count (is_recent now period) (ns key).hits

module _ (ns : Namespace) (now : ℕ) (ip : Option Text) where
  mine-success :
      (limit_key 5 60 ns now (address_key (client_of ip))).1.success
      ≡ (take_from_window (ns (address_key (client_of ip))).hits now 5 guest_period_ms).allowed
  mine-success =
      limit_key-success 5 60 ns now (address_key (client_of ip)) (omega arith) (omega arith)

  everyones-success :
      (limit_key 10 60
        (limit_key 5 60 ns now (address_key (client_of ip))).0
        now
        overall_key).1.success
      ≡ (take_from_window (ns overall_key).hits now 10 guest_period_ms).allowed
  everyones-success =
      limit_key-success 10 60 _ now overall_key (omega arith) (omega arith)
      ∙ ap (λ (l : Limiter). (take_from_window l.hits now 10 guest_period_ms).allowed)
          (limit_key-other 5 60 ns now (address_key (client_of ip)) overall_key
            (address_key-ne-overall_key (client_of ip)))

  -- A guest's question is allowed exactly when fewer than five of its address's questions and
  -- fewer than ten of all guests' questions are recent. The refusal names the address's limit
  -- whenever that one is reached, and the overall limit otherwise.
  pub guest_agent_allowance_iff :
      let decision = (guest_agent_allowance (some ns) now ip).1 in
      let mine = recent_count guest_period_ms ns now (address_key (client_of ip)) in
      let everyones = recent_count guest_period_ms ns now overall_key in
      ((decision ≡ allow) ↔ ((mine < 5) × (everyones < 10)))
      × ((decision ≡ refuse address) ↔ (5 ≤ mine))
      × ((decision ≡ refuse overall) ↔ ((mine < 5) × (10 ≤ everyones)))
  unfolding guest_agent_allowance check_overall
  guest_agent_allowance_iff = ground (
    arith,
    mine-success,
    everyones-success,
    take-allowed_iff (ns (address_key (client_of ip))).hits now 5 guest_period_ms,
    take-allowed_iff (ns overall_key).hits now 10 guest_period_ms,
  )

module _ (ns : Namespace) (now : ℕ) (kind : AuthKind) (ip : Option Text) where
  -- A request that reaches the auth service is allowed exactly when fewer than twelve of that
  -- kind from its address are recent, over five minutes.
  pub auth_limit_allowance_iff :
      ((auth_limit_allowance (some ns) now kind ip).1 ≡ AuthDecision.allow)
      ↔ (recent_count 300000 ns now (auth_key kind (client_of ip)) < 12)
  unfolding auth_limit_allowance
  auth_limit_allowance_iff = ground (
    arith,
    limit_key-success 12 300 ns now (auth_key kind (client_of ip)) (omega arith) (omega arith),
    take-allowed_iff (ns (auth_key kind (client_of ip))).hits now 12 300000,
  )

-- Whatever one visitor does, the next answer to another address, or to the other kind of request,
-- is the one it would have been.
pub auth_limit_allowance_isolated :
    (ns : Namespace) (now now' : ℕ) (kind kind' : AuthKind) (ip ip' : Option Text)
    → ¬ ((kind ≡ kind') × (client_of ip ≡ client_of ip'))
    → (auth_limit_allowance (auth_limit_allowance (some ns) now kind ip).0 now' kind' ip').1
      ≡ (auth_limit_allowance (some ns) now' kind' ip').1
unfolding auth_limit_allowance limit_key
auth_limit_allowance_isolated ns now now' kind kind' ip ip' apart = rw (
    limit_key-other 12 300 ns now (auth_key kind (client_of ip)) (auth_key kind' (client_of ip'))
      (λ e. apart (auth_key-injective kind kind' (client_of ip) (client_of ip') e)))
