-- ===== src/Auth/Delay.antt =====
-- The duration floor: when work that is answered early or late is replied to.
use native.Mathlib.Nat.{div-add-mod', mod-lt, lt_of_mul-lt-mul_right, suc-mul}
use stseen.Auth.{ceil_div, uniform_delay}
use stseen.Prelude.{ℕ, suc, ◌+◌, ◌-◌, ◌*◌, ◌≤◌, ◌<◌, ◌≡◌, inl, inr, arith, max, leb, Bool-cases}

ceil_div-bounds :
    (m step : ℕ) → 1 ≤ step → (m ≤ ceil_div m step * step) × (ceil_div m step * step < m + step)
ceil_div-bounds m step h =
    let e = div-add-mod' (m + (step - 1)) step in
    let l = mod-lt (m + (step - 1)) {m = step} (omega arith) in
    (omega (arith, e, l), omega (arith, e, l))

ceil_div-least : (m step j : ℕ) → 1 ≤ step → m ≤ j * step → ceil_div m step ≤ j
ceil_div-least m step j h k = omega (
  arith,
  lt_of_mul-lt-mul_right step {m = ceil_div m step} {n = suc j}
      (omega (arith, (ceil_div-bounds m step h).1, suc-mul j step)),
)

-- Work that ends at `now` is replied to on a boundary, the floor or a whole number of steps after
-- it, and on the first one that is not before its end.
pub uniform_delay-boundary :
    (started_at now floor step : ℕ)
    → 1 ≤ step
    → (k : ℕ) × ((now - started_at) + uniform_delay started_at now floor step ≡ floor + k * step)
      × ((j : ℕ) → now - started_at ≤ floor + j * step → k ≤ j)
unfolding uniform_delay
uniform_delay-boundary started_at now floor step h =
    let elapsed = now - started_at in
    let past = elapsed - floor in
    elim (Bool-cases (leb elapsed floor)) [
      | inl e ↦ rw e (0, ground arith, λ j k. omega arith)
      | inr e ↦ rw e (
        ceil_div past step,
        ground (arith, (ceil_div-bounds past step h).0),
        λ j k. ceil_div-least past step j h (ground arith),
      )
    ]

-- That boundary is not before the end of the work, and less than a step after it or the floor.
pub uniform_delay-next :
    (started_at now floor step : ℕ)
    → 1 ≤ step
    → (now - started_at) + uniform_delay started_at now floor step
      ≤ max floor ((now - started_at) + (step - 1))
unfolding uniform_delay
uniform_delay-next started_at now floor step h =
    let past = now - started_at - floor in ground (arith, (ceil_div-bounds past step h).1)
