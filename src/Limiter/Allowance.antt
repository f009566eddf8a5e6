-- ===== src/Limiter/Allowance.antt =====
-- The limits as the routes use them: one limiter object for each key of a namespace, the two
-- limits on guests' questions, and the limit on each address's sign-in attempts.
pub mod Laws
pub mod Histories
pub mod Separate
use stseen.Limiter.{Limiter, TakeRequest, TakeResponse, invalid_limit, decided, fetch}
use stseen.Prelude.{
  ℕ, ◌*◌, Bool, true, false, ◌++◌, List, [], ◌∷◌, Option, none, some, if◌then◌else◌, Text, codes,
  text_eq,
}
use stseen.Prelude.Int.{pos}

-- `env.GUEST_QUESTION_LIMITER`: the object that each name stands for.
abbrev pub Namespace : Type 0
Namespace = Text → Limiter

abbrev pub put : Namespace → Text → Limiter → Namespace
put ns key l other = if text_eq key other then l else ns other

pub record LimitOutcome : Type 0 where
  pub success : Bool
  pub retry_after_seconds : Option ℕ

-- A limiter that cannot answer refuses.
abbrev pub outcome : TakeResponse → LimitOutcome
outcome invalid_limit = record { success = false; retry_after_seconds = none }
outcome (decided allowed retry) = record { success = allowed; retry_after_seconds = retry }

-- `durableLimit(namespace, limit, periodSeconds).limit({ key })`
unfoldable pub limit_key : ℕ → ℕ → Namespace → ℕ → Text → Namespace × LimitOutcome
limit_key limit period_seconds ns now key =
    let (l, answer) =
      fetch (ns key) now
        (record { limit = some (pos limit); period_ms = some (pos (period_seconds * 1000)) }) in
    (put ns key l, outcome answer)

abbrev pub guest_questions_per_address : ℕ
guest_questions_per_address = 5

abbrev pub guest_questions_overall : ℕ
guest_questions_overall = 10

abbrev pub guest_limit_period_seconds : ℕ
guest_limit_period_seconds = 60

pub data Refused : Type 0 where
  address overall unavailable : Refused

-- `GuestAgentDecision`
pub data GuestDecision : Type 0 where
  allow : GuestDecision
  refuse : Refused → GuestDecision

-- `request.headers.get("cf-connecting-ip") ?? "unknown"`
abbrev pub client_of : Option Text → Text
client_of none = codes "unknown"
client_of (some ip) = ip

abbrev pub address_key : Text → Text
address_key client = codes "address:" ++ client

abbrev pub overall_key : Text
overall_key = codes "all-guests"

check_overall : Namespace → ℕ → Namespace × GuestDecision
check_overall ns now =
    let (ns', overall_limit) =
      limit_key guest_questions_overall guest_limit_period_seconds ns now overall_key in
    (ns', if overall_limit.success then allow else refuse overall)

-- `guestAgentAllowance` over the limits that `durableGuestLimits` builds, if there is a namespace.
unfoldable pub guest_agent_allowance :
    Option Namespace → ℕ → Option Text → Option Namespace × GuestDecision
unfolding check_overall
guest_agent_allowance none now ip = (none, refuse unavailable)
guest_agent_allowance (some ns) now ip =
    let (ns', address_limit) =
      limit_key guest_questions_per_address guest_limit_period_seconds ns now
        (address_key (client_of ip)) in
    let (ns'', decision) = check_overall ns' now in
    if address_limit.success then (some ns'', decision) else (some ns', refuse address)

abbrev pub auth_per_address : ℕ
auth_per_address = 12

abbrev pub auth_limit_period_seconds : ℕ
auth_limit_period_seconds = 300

pub data AuthKind : Type 0 where
  attempt verification : AuthKind

abbrev pub auth_key : AuthKind → Text → Text
auth_key attempt client = codes "auth-attempt:" ++ client
auth_key verification client = codes "auth-verification:" ++ client

-- `AuthLimitDecision`
pub data AuthDecision : Type 0 where
  allow : AuthDecision
  refuse : (retry_after_seconds : ℕ) → AuthDecision

abbrev or_period : Option ℕ → ℕ
or_period none = auth_limit_period_seconds
or_period (some s) = s

-- `authLimitAllowance` over the limits that `durableAuthLimits` builds, if there is a namespace.
unfoldable pub auth_limit_allowance :
    Option Namespace → ℕ → AuthKind → Option Text → Option Namespace × AuthDecision
auth_limit_allowance none now kind ip = (none, AuthDecision.allow)
auth_limit_allowance (some ns) now kind ip =
    let (ns', o) =
      limit_key auth_per_address auth_limit_period_seconds ns now (auth_key kind (client_of ip)) in
    (
      some ns',
      if o.success
          then AuthDecision.allow
          else AuthDecision.refuse (or_period o.retry_after_seconds),
    )
