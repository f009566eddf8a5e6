-- ===== src/Prelude/Tally.antt =====
-- A `Map` of counts, in the order in which its keys were first set.
use stseen.Prelude.{
  ℕ, suc, ◌+◌, ◌-◌, ◌≡◌, refl, List, [], ◌∷◌, arith, if◌then◌else◌, ltb, count, Text, text_eq,
  text_eq_iff,
}

abbrev pub Tally : Type 0
Tally = List (Text × ℕ)

-- `map.get(key) ?? 0`
unfoldable pub tally_of : Text → Tally → ℕ
tally_of key [] = 0
tally_of key ((k, n) ∷ m) = if text_eq k key then n else tally_of key m

-- `map.set(key, (map.get(key) ?? 0) + 1)`
unfoldable pub bump : Text → Tally → Tally
bump key [] = (key, 1) ∷ []
bump key ((k, n) ∷ m) = if text_eq k key then (k, suc n) ∷ m else (k, n) ∷ bump key m

unfoldable pub bump_all : Tally → List Text → Tally
unfolding bump
bump_all m [] = m
bump_all m (key ∷ keys) = bump_all (bump key m) keys

-- What the counts above `cap` add up to, less `cap` each.
unfoldable pub excess : ℕ → Tally → ℕ
excess cap [] = 0
excess cap ((k, n) ∷ m) = if ltb cap n then n - cap + excess cap m else excess cap m

pub tally_of-bump :
    (j key : Text) (m : Tally)
    → tally_of j (bump key m) ≡ (if text_eq key j then suc (tally_of j m) else tally_of j m)
unfolding tally_of bump
tally_of-bump j key [] = refl
tally_of-bump j key ((k, n) ∷ m) =
    ground (arith, tally_of-bump j key m, text_eq_iff k key, text_eq_iff k j, text_eq_iff key j)

-- A tally counts its keys.
pub tally_of-bump_all :
    (j : Text) (m : Tally) (keys : List Text)
    → tally_of j (bump_all m keys) ≡ tally_of j m + count (λ key. text_eq key j) keys
unfolding bump_all
tally_of-bump_all j m [] = omega arith
tally_of-bump_all j m (key ∷ keys) =
    ground (arith, tally_of-bump_all j (bump key m) keys, tally_of-bump j key m)

pub excess-bump :
    (cap : ℕ) (key : Text) (m : Tally)
    → excess cap (bump key m)
      ≡ (if ltb cap (suc (tally_of key m)) then suc (excess cap m) else excess cap m)
unfolding excess bump tally_of
excess-bump cap key [] = ground arith
excess-bump cap key ((k, n) ∷ m) = ground (arith, excess-bump cap key m)
