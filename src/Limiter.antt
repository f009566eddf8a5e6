-- ===== src/Limiter.antt =====
-- The limits on guests' questions and on sign-in attempts: apps/web/cloudflare/guest-limiter.ts,
-- guest-agent.ts and auth-limits.ts. Times are milliseconds.
pub mod Window
pub mod Object
pub mod Allowance
mod Examples
use stseen.Prelude.{
  ℕ, ◌+◌, ◌-◌, ◌/◌, max, Bool, true, false, List, [], ◌∷◌, ◌++◌, Option, none, some, ltb, leb,
  if◌then◌else◌, length, filter, head?, Text, codes, text_eq,
}
use stseen.Prelude.Int.{ℤ, sub_ℕ, pos, negsuc}
use stseen.Prelude.Sort.{sort}

-- `WindowDecision`; `retry_after_seconds` is `none` where the source computes `NaN`.
pub record WindowDecision : Type 0 where
  pub allowed : Bool
  pub hits : List ℕ
  pub retry_after_seconds : Option ℕ

-- `(a, b) => a - b`
abbrev pub earlier : ℕ → ℕ → ℤ
earlier a b = sub_ℕ a b

-- `at > now - periodMs`
abbrev pub is_recent : ℕ → ℕ → ℕ → Bool
is_recent now period at = ltb now (at + period)

-- `Math.ceil(ms / 1000)`
abbrev pub seconds_up : ℕ → ℕ
seconds_up ms = (ms + 999) / 1000

-- `Math.max(1, Math.ceil((recent[0] + periodMs - now) / 1000))`
abbrev pub retry_after : ℕ → ℕ → Option ℕ → Option ℕ
retry_after now period none = none
retry_after now period (some oldest) = some (max 1 (seconds_up (oldest + period - now)))

unfoldable pub recent_hits : List ℕ → ℕ → ℕ → List ℕ
recent_hits hits now period = sort earlier (filter (is_recent now period) hits)

-- `takeFromWindow`
unfoldable pub take_from_window : List ℕ → ℕ → ℕ → ℕ → WindowDecision
take_from_window hits now limit period =
    let recent = recent_hits hits now period in
    if leb limit (length recent)
    then record {
      allowed = false;
      hits = recent;
      retry_after_seconds = retry_after now period (head? recent);
    }
    else record { allowed = true; hits = recent ++ now ∷ []; retry_after_seconds = some 0 }

-- `GuestQuestionLimiter`: its field, and what its storage holds under "hits".
pub record Limiter : Type 0 where
  pub hits : List ℕ
  pub stored : Option (List ℕ)

abbrev pub stored_hits : Option (List ℕ) → List ℕ
stored_hits none = []
stored_hits (some hits) = hits

-- The constructor, which reads the storage before any request.
unfoldable pub load : Option (List ℕ) → Limiter
load stored = record { hits = stored_hits stored; stored = stored }

-- The two query parameters as `Number` reads them; `none` where `Number.isInteger` is false.
pub record TakeRequest : Type 0 where
  pub limit : Option ℤ
  pub period_ms : Option ℤ

pub data TakeResponse : Type 0 where
  invalid_limit : TakeResponse
  decided : (allowed : Bool) → (retry_after_seconds : Option ℕ) → TakeResponse

-- An integer of at least `least`.
abbrev pub at_least : ℕ → Option ℤ → Option ℕ
at_least least none = none
at_least least (some (negsuc n)) = none
at_least least (some (pos n)) = if leb least n then some n else none

abbrev decide_take : Limiter → ℕ → Option ℕ → Option ℕ → Limiter × TakeResponse
decide_take l now none _ = (l, invalid_limit)
decide_take l now (some limit) none = (l, invalid_limit)
decide_take l now (some limit) (some period) =
    let d = take_from_window l.hits now limit period in
    (record { hits = d.hits; stored = some d.hits }, decided d.allowed d.retry_after_seconds)

-- `GuestQuestionLimiter.fetch` at the clock's `now`.
unfoldable pub fetch : Limiter → ℕ → TakeRequest → Limiter × TakeResponse
fetch l now req = decide_take l now (at_least 1 req.limit) (at_least 1000 req.period_ms)
