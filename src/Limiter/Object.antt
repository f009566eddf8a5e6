-- ===== src/Limiter/Object.antt =====
-- One limiter object over its life: questions at increasing times, all held to one limit, and
-- evictions, after which the object is built again from its storage.
use mathlib.Core.List.{append-nil, append_assoc}
use stseen.Limiter.{
  Limiter, TakeRequest, TakeResponse, invalid_limit, decided, is_recent, recent_hits, stored_hits,
  load, fetch, take_from_window,
}
use stseen.Limiter.Window.{
  count-recent_hits, take-allowed_iff, take_allowed_hits, take_refused_hits,
}
use stseen.Prelude.{
  ℕ, ◌≤◌, ◌≡◌, refl, inl, inr, Bool, true, false, ◌&&◌, List, [], ◌∷◌, ◌++◌, none, some, arith, leb,
  count, Bool-cases, count-append, count_congr, count_mono, ◌∙◌,
}
use stseen.Prelude.Int.{pos}

pub data Event : Type 0 where
  ask : (at : ℕ) → Event
  evict : Event

-- The times of the events do not decrease, and start no earlier than `now`.
abbrev pub IsTimeline : ℕ → List Event → Type 0
IsTimeline now [] = Unit
IsTimeline now (ask at ∷ es) = (now ≤ at) × IsTimeline at es
IsTimeline now (evict ∷ es) = IsTimeline now es

abbrev pub granted_at : ℕ → TakeResponse → List ℕ
granted_at at invalid_limit = []
granted_at at (decided true s) = at ∷ []
granted_at at (decided false s) = []

-- Whether `at` lies in the window of `period` that ends with `t`.
abbrev pub in_window : ℕ → ℕ → ℕ → Bool
in_window period t at = leb at t && is_recent t period at

module _ (limit period : ℕ) where
  abbrev pub request : TakeRequest
  request = record { limit = some (pos limit); period_ms = some (pos period) }

  -- The times of the questions that the object allows, in order.
  unfoldable pub grants : Limiter → List Event → List ℕ
  grants l [] = []
  grants l (ask at ∷ es) =
      let (l', answer) = fetch l at request in granted_at at answer ++ grants l' es
  grants l (evict ∷ es) = grants (load l.stored) es

  -- What the object knows of the questions it has allowed, `log`, by the time `now`.
  pub record Tracks (now : ℕ) (log : List ℕ) (l : Limiter) : Type 0 where
    pub saved : stored_hits l.stored ≡ l.hits
    pub same :
        (q : ℕ → Bool)
        → count (λ a. q a && is_recent now period a) l.hits
          ≡ count (λ a. q a && is_recent now period a) log
    pub bound : (t : ℕ) → count (in_window period t) log ≤ limit

  module _ (limit_ok : 1 ≤ limit) (period_ok : 1000 ≤ period) where
    pub fetch_lem :
        (l : Limiter) (now : ℕ)
        → let d = take_from_window l.hits now limit period in
          fetch l now request ≡ (
            record { hits = d.hits; stored = some d.hits },
            decided d.allowed d.retry_after_seconds,
          )
    unfolding fetch
    fetch_lem l now = ground arith

    module _ {now at : ℕ} (log : List ℕ) (l : Limiter) (later : now ≤ at)
        (k : Tracks now log l) where
      -- The recent hits and the log agree on every test that recent times alone can pass.
      count-recent-log :
          (q : ℕ → Bool)
          → count (λ a. q a && is_recent at period a) (recent_hits l.hits at period)
            ≡ count (λ a. q a && is_recent at period a) log
      count-recent-log q =
          count-recent_hits (λ a. q a && is_recent at period a) l.hits at period
          ∙ count_congr _ (λ a. (q a && is_recent at period a) && is_recent now period a) l.hits
              (λ a. ground arith)
          ∙ k.same (λ a. q a && is_recent at period a)
          ∙ count_congr _ (λ a. q a && is_recent at period a) log (λ a. ground arith)

      count-recent-hits-log : count (is_recent at period) l.hits ≡ count (is_recent at period) log
      count-recent-hits-log =
          count_congr _ (λ a. is_recent at period a && is_recent now period a) l.hits
            (λ a. ground arith)
          ∙ k.same (is_recent at period)
          ∙ count_congr _ (is_recent at period) log (λ a. ground arith)

      bound-granted :
          (take_from_window l.hits at limit period).allowed ≡ true
          → (t : ℕ) → count (in_window period t) (log ++ at ∷ []) ≤ limit
      bound-granted allowed t = ground (
        arith,
        (take-allowed_iff l.hits at limit period).0 allowed,
        count-recent-hits-log,
        k.bound t,
        count-append (in_window period t) log (at ∷ []),
        inside,
      )
        where
          inside :
              in_window period t at ≡ true
              → count (in_window period t) log ≤ count (is_recent at period) log
          inside e = count_mono (in_window period t) (is_recent at period) log (λ a h. ground arith)

      pub ask-Tracks :
          Tracks at (log ++ granted_at at (fetch l at request).1) (fetch l at request).0
      ask-Tracks =
          rw fetch_lem (elim (Bool-cases (take_from_window l.hits at limit period).allowed) [
            | inl allowed ↦
                rw (allowed, take_allowed_hits l.hits at limit period allowed)
                  (record {
                    saved = refl;
                    same = λ q. omega (
                      arith,
                      count-append (λ a. q a && is_recent at period a)
                          (recent_hits l.hits at period) (at ∷ []),
                      count-append (λ a. q a && is_recent at period a) log (at ∷ []),
                      count-recent-log q,
                    );
                    bound = bound-granted allowed;
                  })
            | inr refused ↦
                rw (refused, take_refused_hits l.hits at limit period refused, append-nil log)
                  (record { saved = refl; same = count-recent-log; bound = k.bound })
          ])

    grants_bound :
        (now : ℕ) (log : List ℕ) (l : Limiter) (es : List Event)
        → IsTimeline now es
        → Tracks now log l
        → (t : ℕ) → count (in_window period t) (log ++ grants l es) ≤ limit
    unfolding grants load
    grants_bound now log l [] line k t = rw (append-nil log) (k.bound t)
    grants_bound now log l (ask at ∷ es) line k t = rw (← append_assoc log _ _) (
        grants_bound at (log ++ granted_at at (fetch l at request).1) (fetch l at request).0 es
          line.1 (ask-Tracks log l line.0 k) t)
    grants_bound now log l (evict ∷ es) line k t =
        grants_bound now log (load l.stored) es line
          (record { saved = refl; same = λ q. rw k.saved (k.same q); bound = k.bound }) t

    pub new_object-Tracks : Tracks 0 [] (load none)
    unfolding load
    new_object-Tracks = record { saved = refl; same = λ q. refl; bound = λ t. omega arith }

    -- A new object that is held to one limit and period, and asked at times that do not decrease,
    -- never allows more than `limit` questions in any window of that period, evictions or not.
    pub grants-in_window :
        (es : List Event)
        → IsTimeline 0 es
        → (t : ℕ) → count (in_window period t) (grants (load none) es) ≤ limit
    grants-in_window es line t = grants_bound 0 [] (load none) es line new_object-Tracks t
