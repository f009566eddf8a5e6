-- ===== src/Calendar/Calls.antt =====
-- Calls that change a world and return or throw, and the chaining of them.
use stseen.Prelude.{ℕ, Bool, false, Option, none, some, if◌then◌else◌, ◌==◌, Text}

-- An error with its message and, where it stands for an answer, that answer's status.
pub record Failure : Type 0 where
  pub code : Text
  pub status : Option ℕ

pub data Outcome (A : Type 0) : Type 0 where
  done : A → Outcome A
  thrown : Failure → Outcome A

-- What comes after an `await`: nothing where the call has thrown.
abbrev pub bind : {W A B : Type 0} → W × Outcome A → (A → W → W × Outcome B) → W × Outcome B
bind (w, done a) next = next a w
bind (w, thrown failure) next = (w, thrown failure)

abbrev pub has_status : ℕ → Failure → Bool
has_status status failure = elim failure.status [ none ↦ false | some s ↦ s == status ]

-- `catch (error) { if (error.status !== status) throw error; ... }`
abbrev pub catch_status : {W A : Type 0} → ℕ → W × Outcome A → (W → W × Outcome A) → W × Outcome A
catch_status status (w, done a) again = (w, done a)
catch_status status (w, thrown failure) again =
    if has_status status failure then again w else (w, thrown failure)
