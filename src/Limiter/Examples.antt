-- ===== src/Limiter/Examples.antt =====
-- Runs of the limiter, and its theorems at concrete inputs.
use stseen.Limiter.{recent_hits, take_from_window, load, fetch}
use stseen.Limiter.Object.{Event, ask, evict, in_window, grants, grants-in_window}
use stseen.Limiter.Allowance.{limit_key, guest_agent_allowance}
use stseen.Limiter.Allowance.Laws.{guest_period_ms}
use stseen.Limiter.Allowance.Histories.{
  Question, fresh, times, guest_grants, guest_grants-in_window,
}
use stseen.Prelude.{
  ℕ, ◌+◌, ◌*◌, ◌≤◌, ◌<◌, ◌≡◌, refl, ◌↔◌, Bool, true, false, ◌&&◌, List, [], ◌∷◌, Option, none, some,
  arith, count, Text, codes, text_eq, ne_of_text_eq, length,
}

abbrev full_minute : List ℕ
full_minute = 4000 ∷ 1000 ∷ []

take_tests :
    ((take_from_window full_minute 5000 2 60000).allowed ≡ false)
    × ((take_from_window full_minute 5000 2 60000).retry_after_seconds ≡ some 56)
    × ((take_from_window full_minute 61000 2 60000).hits ≡ 4000 ∷ 61000 ∷ [])
unfolding take_from_window recent_hits stseen.Prelude.Sort.sort
take_tests = (refl, refl, refl)

abbrev busy_day : List Event
busy_day = ask 1000 ∷ ask 2000 ∷ evict ∷ ask 3000 ∷ ask 62000 ∷ []

grants_test : grants 2 60000 (load none) busy_day ≡ 1000 ∷ 2000 ∷ 62000 ∷ []
unfolding grants load fetch take_from_window recent_hits stseen.Prelude.Sort.sort
grants_test = refl

grants-in_window_example : count (in_window 60000 3000) (grants 2 60000 (load none) busy_day) ≤ 2
grants-in_window_example =
    grants-in_window 2 60000 (omega arith) (omega arith) busy_day (omega arith) 3000

abbrev home : Option Text
home = some (codes "192.0.2.1")

abbrev work : Option Text
work = some (codes "192.0.2.2")

abbrev evening : List Question
evening =
    (0, home)
    ∷ (1, home)
    ∷ (2, home)
    ∷ (3, home)
    ∷ (4, home)
    ∷ (5, home)
    ∷ (6, work)
    ∷ (60001, home)
    ∷ []

-- The sixth question from one address is refused, and another address's is not.
guest_grants_test : times (guest_grants (some fresh) evening) ≡ 0 ∷ 1 ∷ 2 ∷ 3 ∷ 4 ∷ 6 ∷ 60001 ∷ []
unfolding guest_grants guest_agent_allowance limit_key load fetch take_from_window recent_hits
    stseen.Prelude.Sort.sort
guest_grants_test = refl

guest_grants-in_window_example :
    (count (in_window guest_period_ms 6) (times (guest_grants (some fresh) evening)) ≤ 10)
    × ((c : Text)
        → count
            (λ g. text_eq g.1 c && in_window guest_period_ms 6 g.0)
            (guest_grants (some fresh) evening)
          ≤ 5)
guest_grants-in_window_example = guest_grants-in_window evening (omega arith) 6
