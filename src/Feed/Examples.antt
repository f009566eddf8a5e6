-- ===== src/Feed/Examples.antt =====
-- A feed with one busy company, and the theorems at it.
use stseen.Feed.{pick, place, interleave_by_company, keeps_company_rule}
use stseen.Feed.Account.{of_company, interleave_order}
use stseen.Feed.Rule.{KeepsRule, feed-KeepsRule}
use stseen.Prelude.{ℕ, ◌≡◌, refl, true, List, [], ◌∷◌, ◌++◌, length, filter, Text, codes}
use stseen.Prelude.Tally.{tally_of, bump, bump_all}

-- An opening: its company and a number.
abbrev Opening : Type 0
Opening = Text × ℕ

abbrev company : Opening → Text
company o = o.0

abbrev openings : List Opening
openings =
    (codes "a", 1)
    ∷ (codes "a", 2)
    ∷ (codes "a", 3)
    ∷ (codes "b", 4)
    ∷ (codes "a", 5)
    ∷ (codes "c", 6)
    ∷ []

interleave_test :
    interleave_by_company company openings
    ≡ ((codes "a", 1) ∷ (codes "a", 2) ∷ (codes "b", 4) ∷ (codes "c", 6) ∷ [], (codes "a", 2) ∷ [])
unfolding interleave_by_company place pick bump bump_all
interleave_test = refl

feed-KeepsRule_example :
    KeepsRule company (interleave_by_company company openings).0
    × (keeps_company_rule company (interleave_by_company company openings).0 ≡ true)
feed-KeepsRule_example = feed-KeepsRule company openings

interleave_order_example :
    (n : List Opening) × (filter
          (of_company company (codes "a"))
          (interleave_by_company company openings).0
        ++ n
      ≡ filter (of_company company (codes "a")) openings)
    × (tally_of (codes "a") (interleave_by_company company openings).1 ≡ length n)
interleave_order_example = interleave_order company openings (codes "a")
