-- ===== src/Feed.antt =====
-- The Just opened feed: apps/web/lib/just-opened.ts. Companies are compared by their ids, which
-- are texts.
pub mod Rule
pub mod Account
mod Examples
use stseen.Prelude.{
  ℕ, zero, suc, ◌+◌, ◌-◌, Bool, true, false, not, ◌&&◌, List, [], ◌∷◌, ◌++◌, Option, none, some,
  map, if◌then◌else◌, ltb, length, take, drop, count, any, Text, text_eq,
}
use stseen.Prelude.Tally.{Tally, bump_all}

-- `WINDOW`
abbrev pub window : ℕ
window = 6

abbrev pub per_window : ℕ
per_window = 2

-- `xs.slice(-n)`, for a positive `n`.
abbrev pub last_of {ℓ} : {A : Type ℓ} → ℕ → List A → List A
last_of n xs = drop (length xs - n) xs

abbrev pub too_many : List Text → Bool
too_many companies =
    any (λ company. ltb per_window (count (λ other. text_eq other company) companies)) companies

module _ {ℓ} {T : Type ℓ} (company_of : T → Text) where
  -- `recent.filter((placed) => placed === company).length < PER_WINDOW`
  abbrev pub has_room : List Text → T → Bool
  has_room recent item = ltb (count (λ placed. text_eq placed (company_of item)) recent) per_window

  -- `remaining.findIndex(…)` and `remaining.splice(index, 1)[0]`: the item and what remains.
  unfoldable pub pick : List Text → List T → Option (T × List T)
  pick recent [] = none
  pick recent (item ∷ items) =
      if has_room recent item
      then some (item, items)
      else elim (pick recent items) [ none ↦ none | some (found, rest) ↦ some (found, item ∷ rest) ]

  -- The loop, with `fuel` rounds: the feed, and what remains when it ends.
  unfoldable pub place : ℕ → List T → List T → List T × List T
  unfolding pick
  place zero feed remaining = (feed, remaining)
  place (suc fuel) feed remaining =
      elim (pick (map company_of (last_of (window - 1) feed)) remaining) [
        | none ↦ (feed, remaining)
        | some (item, rest) ↦ place fuel (feed ++ item ∷ []) rest
      ]

  -- `interleaveByCompany`: the feed and the overflow. Each round places an item, so there are at
  -- most as many rounds as items.
  unfoldable pub interleave_by_company : List T → List T × Tally
  unfolding place
  interleave_by_company newest_first =
      let (feed, remaining) = place (length newest_first) [] newest_first in
      (feed, bump_all [] (map company_of remaining))

  -- `keepsCompanyRule`: every window of two items or more.
  unfoldable pub keeps_company_rule : List T → Bool
  keeps_company_rule [] = true
  keeps_company_rule (item ∷ []) = true
  keeps_company_rule (item ∷ next ∷ items) =
      not (too_many (map company_of (take window (item ∷ next ∷ items))))
      && keeps_company_rule (next ∷ items)
